-- ===== src/Keyboard/Shown.antt =====
-- What saving, restoring and switching terminals keeps of the console's invariant.
use chap_os.Common.{ℕ, ◌<◌, ◌≡◌, arith, inl, inr, Bool-cases, some, ◌==◌}
use chap_os.Pic.{sti}
use chap_os.Paging.{Layout, term_vir_addr}
use chap_os.Screen.{move_curser}
use chap_os.Keyboard.{Term, Console}
use chap_os.Keyboard.Terminal.{phys, set_terminal, set_cur_term_id, map_terminal}
use chap_os.Keyboard.Switching.{
  IsMapped, page_of, map_terminal-phys, note_cursor, note_cursor-IsMapped, saved, restored,
  switched, saved-IsMapped, map_terminal-IsMapped,
}
use chap_os.Keyboard.Keys.{IsTerm, IsConsole, on_io-IsConsole}

module _ (l : Layout) where
  mapped_page :
      (id : ℕ) (c : Console)
      → id < 3
      → IsMapped l c
      → phys l term_vir_addr (map_terminal l id c) ≡ some (page_of id)
  mapped_page id c lt v = (map_terminal-phys l id c lt v).1

  pub saved-IsConsole : (c : Console) → IsConsole l c → IsConsole l (saved l c.cur_term_id c)
  saved-IsConsole c v = record {
    mode = v.mode;
    index = v.index;
    on_screen = record { column = v.on_screen.column; row = v.on_screen.row };
    current = v.current;
    saved = λ id. elim (Bool-cases (id == c.cur_term_id)) [
      | inl e ↦ rw e (record {
        column = ground (arith, v.on_screen.column);
        row = ground (arith, v.on_screen.row);
        line = v.index;
      })
      | inr e ↦ rw e (v.saved id)
    ];
    mapped = saved-IsMapped l c.cur_term_id c v.current v.mapped;
    own_page =
        mapped_page c.cur_term_id (note_cursor l c.cur_term_id c) v.current
          (note_cursor-IsMapped l c.cur_term_id c v.mapped);
  }

  pub restored-IsConsole :
      (id : ℕ) (c : Console)
      → id < 3
      → IsConsole l c
      → IsConsole l (restored l id (set_cur_term_id id c))
  unfolding move_curser
  restored-IsConsole id c lt v =
      let t : IsTerm (c.terminals id) = v.saved id in
      let at : IsMapped l (map_terminal l id c) = map_terminal-IsMapped l id c lt v.mapped in
      record {
        mode = v.mode;
        index = t.line;
        on_screen = record { column = t.column; row = t.row };
        current = lt;
        saved = v.saved;
        mapped = record {
          laid_out = at.laid_out;
          shown = at.shown;
          kernel_table = at.kernel_table;
          pages = at.pages;
        };
        own_page = mapped_page id c lt v.mapped;
      }

  map_own : (c : Console) → IsConsole l c → IsConsole l (map_terminal l c.cur_term_id c)
  map_own c v = record {
    mode = v.mode;
    index = v.index;
    on_screen = v.on_screen;
    current = v.current;
    saved = v.saved;
    mapped = map_terminal-IsMapped l c.cur_term_id c v.current v.mapped;
    own_page = mapped_page c.cur_term_id c v.current v.mapped;
  }

  -- `restored` does not read the current terminal's number.
  pub switched-IsConsole :
      (id : ℕ) (c : Console) → id < 3 → IsConsole l c → IsConsole l (switched l id c)
  switched-IsConsole id c lt v =
      let c1 : Console = saved l c.cur_term_id c in
      on_io-IsConsole l sti (map_terminal l id (set_cur_term_id id (restored l id c1))) (
        map_own (set_cur_term_id id (restored l id c1))
          (restored-IsConsole id c1 lt (saved-IsConsole c v)))

  pub set_in_use-IsConsole :
      (id : ℕ) (c : Console)
      → IsConsole l c
      → IsConsole l (set_terminal id (record (c.terminals id) { is_in_use_flag = 1 }) c)
  set_in_use-IsConsole id c v = record {
    mode = v.mode;
    index = v.index;
    on_screen = v.on_screen;
    current = v.current;
    saved = λ k. elim (Bool-cases (k == id)) [
      | inl e ↦ rw e (same_place (v.saved id))
      | inr e ↦ rw e (v.saved k)
    ];
    mapped = record {
      laid_out = v.mapped.laid_out;
      shown = v.mapped.shown;
      kernel_table = v.mapped.kernel_table;
      pages = λ k. elim (Bool-cases (k == id)) [
        | inl e ↦ rw e (v.mapped.pages id)
        | inr e ↦ rw e (v.mapped.pages k)
      ];
    };
    own_page = v.own_page;
  }
    where
      same_place : {t : Term} → IsTerm t → IsTerm (record t { is_in_use_flag = 1 })
      same_place s = record { column = s.column; row = s.row; line = s.line }
