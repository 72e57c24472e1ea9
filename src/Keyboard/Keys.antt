-- ===== src/Keyboard/Keys.antt =====
-- What every key keeps: the keyboard handler's invariant.
use chap_os.Common.{ℕ, ◌≤◌, ◌<◌, ◌≡◌, refl, some, arith, inl, inr, Bool-cases, ◌||◌, leb, ◌==◌}
use chap_os.Pic.{Io}
use chap_os.Paging.{Layout, term_vir_addr}
use chap_os.Screen.{putc, clear, move_curser}
use chap_os.Screen.Cursor.{InScreen, putc-InScreen}
use chap_os.Keyboard.{
  Term, Console, press_caps, press_shift, unpress_shift, press_enter, press_bskp, step_back,
  type_key, control_key, press_other_key, set_ctrl_flag, set_alt_flag, on_io, scancode_array,
}
use chap_os.Keyboard.Terminal.{phys}
use chap_os.Keyboard.Switching.{IsMapped, page_of}

-- The coordinates and the line's length that a terminal keeps while another one is shown.
pub record IsTerm (t : Term) : Type 0 where
  pub column : t.x < 80
  pub row : t.y < 25
  pub line : t.saved_index ≤ 128

-- The console in order; the address of the terminals' pages is mapped to the page of the terminal
-- that is shown.
pub record IsConsole (l : Layout) (c : Console) : Type 0 where
  pub mode : c.keyboard_mode < 4
  pub index : c.buffer_index ≤ 128
  pub on_screen : InScreen c.display
  pub current : c.cur_term_id < 3
  pub saved : (id : ℕ) → IsTerm (c.terminals id)
  pub mapped : IsMapped l c
  pub own_page : phys l term_vir_addr c ≡ some (page_of c.cur_term_id)

module _ (l : Layout) where
  -- The keys that stay on their terminal change neither the terminals nor the mapping.
  abbrev Stays : Console → Console → Type 0
  Stays c' c =
      (c'.cur_term_id ≡ c.cur_term_id) × (c'.terminals ≡ c.terminals) × (c'.paging ≡ c.paging)

  stay :
      (c c' : Console)
      → IsConsole l c
      → Stays c' c
      → c'.keyboard_mode < 4
      → c'.buffer_index ≤ 128
      → c'.display.screen_x < 80
      → c'.display.screen_y < 25
      → IsConsole l c'
  stay c c' v (cur, terms, paging) mode index column row = record {
    mode = mode;
    index = index;
    on_screen = record { column = column; row = row };
    current = rw cur v.current;
    saved = λ id. rw terms (v.saved id);
    mapped = record {
      laid_out = v.mapped.laid_out;
      shown = rw paging v.mapped.shown;
      kernel_table = rw paging v.mapped.kernel_table;
      pages = λ id. rw terms (v.mapped.pages id);
    };
    own_page = rw (cur, paging) v.own_page;
  }

  pub press_caps-IsConsole : (c : Console) → IsConsole l c → IsConsole l (press_caps c)
  unfolding press_caps
  press_caps-IsConsole c v =
      stay c (press_caps c) v (ground arith) (ground arith) (ground arith) (ground arith)
        (ground arith)

  pub press_shift-IsConsole : (c : Console) → IsConsole l c → IsConsole l (press_shift c)
  unfolding press_shift
  press_shift-IsConsole c v =
      stay c (press_shift c) v (ground arith) (ground arith) (ground arith) (ground arith)
        (ground arith)

  pub unpress_shift-IsConsole : (c : Console) → IsConsole l c → IsConsole l (unpress_shift c)
  unfolding unpress_shift
  unpress_shift-IsConsole c v =
      stay c (unpress_shift c) v (ground arith) (ground arith) (ground arith) (ground arith)
        (ground arith)

  pub press_enter-IsConsole : (c : Console) → IsConsole l c → IsConsole l (press_enter c)
  unfolding press_enter
  press_enter-IsConsole c v =
      let s : InScreen (putc 10 c.display) = putc-InScreen 10 c.display v.on_screen in
      stay c (press_enter c) v (refl, refl, refl) v.mode (omega arith) s.column s.row

  pub press_bskp-IsConsole : (c : Console) → IsConsole l c → IsConsole l (press_bskp c)
  unfolding press_bskp step_back move_curser
  press_bskp-IsConsole c v =
      stay c (press_bskp c) v (ground arith) (ground arith) (ground arith) (ground arith)
        (ground arith)

  type_key-IsConsole : (key : ℕ) (c : Console) → IsConsole l c → IsConsole l (type_key key c)
  unfolding type_key
  type_key-IsConsole key c v =
      let s : InScreen (putc key c.display) = putc-InScreen key c.display v.on_screen in
      stay c (type_key key c) v (ground arith) (ground arith) (ground arith)
        (ground (arith, s.column)) (ground (arith, s.row))

  control_key-IsConsole :
      (key : ℕ) (c : Console) → IsConsole l c → IsConsole l (control_key key c).1
  unfolding control_key move_curser clear
  control_key-IsConsole key c v =
      stay c (control_key key c).1 v (ground arith) (ground arith) (ground arith) (ground arith)
        (ground arith)

  pub press_other_key-IsConsole :
      (key : ℕ) (c : Console) → IsConsole l c → IsConsole l (press_other_key key c).1
  unfolding press_other_key
  press_other_key-IsConsole key c v =
      let actual : ℕ = scancode_array c.keyboard_mode key in
      elim (Bool-cases (leb 87 key || actual == 0)) [
        | inl e ↦ rw e v
        | inr e ↦ elim (Bool-cases (c.ctrl_flag == 0)) [
          | inl f ↦ rw (e, f) (type_key-IsConsole actual c v)
          | inr f ↦ rw (e, f) (control_key-IsConsole actual c v)
        ]
      ]

  pub set_ctrl_flag-IsConsole :
      (key : ℕ) (c : Console) → IsConsole l c → IsConsole l (set_ctrl_flag key c)
  unfolding set_ctrl_flag
  set_ctrl_flag-IsConsole key c v =
      stay c (set_ctrl_flag key c) v (ground arith) (ground arith) (ground arith) (ground arith)
        (ground arith)

  pub set_alt_flag-IsConsole :
      (key : ℕ) (c : Console) → IsConsole l c → IsConsole l (set_alt_flag key c)
  unfolding set_alt_flag
  set_alt_flag-IsConsole key c v =
      stay c (set_alt_flag key c) v (ground arith) (ground arith) (ground arith) (ground arith)
        (ground arith)

  pub on_io-IsConsole : (f : Io → Io) (c : Console) → IsConsole l c → IsConsole l (on_io f c)
  on_io-IsConsole f c v =
      stay c (on_io f c) v (refl, refl, refl) v.mode v.index v.on_screen.column v.on_screen.row
