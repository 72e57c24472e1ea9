-- ===== src/Screen/Printf/Same.antt =====
-- Displays that differ in a buffer alone, and printing on them.
use chap_os.Common.{
  ℕ, zero, suc, ◌+◌, ◌*◌, ◌≤◌, ◌<◌, ◌≡◌, ◌⊎◌, refl, ◌∙◌, arith, ◌==◌, ◌||◌, Bool-cases, inl, inr,
  some, List, [], ◌∷◌, ◌++◌, Mem,
}
use chap_os.Text.Length.{IsText}
use chap_os.Screen.{
  Display, video, put_cell, move_screen_up, move_curser, new_line, print_char, putc, print_text,
}
use chap_os.Screen.Scroll.{move_screen_up-scrolled}
use chap_os.Screen.Cursor.{InScreen, putc-InScreen, putc-outside}
use chap_os.Screen.Puts.{put_all, puts-put_all}
use chap_os.Screen.Printf.{with_mem, put_string}
use chap_os.Screen.Printf.Pieces.{bytes_at}

-- The buffer does not overlap the screen's memory.
abbrev pub IsBuffer : ℕ → ℕ → Type 0
IsBuffer conv size = (conv + size ≤ video) ⊎ (video + 4000 ≤ conv)

-- Memories that differ in the `size` bytes from `conv` on alone.
abbrev pub SameMem : ℕ → ℕ → Mem → Mem → Type 0
SameMem conv size m m' = (a : ℕ) → (a < conv) ⊎ (conv + size ≤ a) → m' a ≡ m a

pub record Same (conv size : ℕ) (d d' : Display) : Type 0 where
  pub screen_x : d'.screen_x ≡ d.screen_x
  pub screen_y : d'.screen_y ≡ d.screen_y
  pub io : d'.io ≡ d.io
  pub mem : SameMem conv size d.mem d'.mem

pub Same-refl : (conv size : ℕ) (d : Display) → Same conv size d d
Same-refl conv size d = record { screen_x = refl; screen_y = refl; io = refl; mem = λ a h. refl }

pub with_mem-Same :
    {conv size : ℕ} {d d' : Display} (m : Mem)
    → Same conv size d d'
    → SameMem conv size d'.mem m
    → Same conv size d (with_mem m d')
with_mem-Same m s h = record {
  screen_x = s.screen_x;
  screen_y = s.screen_y;
  io = s.io;
  mem = λ a out. h a out ∙ s.mem a out;
}

module _ (conv size : ℕ) (apart : IsBuffer conv size) where
  move_screen_up-Same :
      (m m' : Mem)
      → SameMem conv size m m'
      → SameMem conv size (move_screen_up m) (move_screen_up m')
  move_screen_up-Same m m' h a out =
      ground (arith, move_screen_up-scrolled m a, move_screen_up-scrolled m' a, h a, h (a + 160))

  put_cell-Same :
      (k c : ℕ) (m m' : Mem)
      → SameMem conv size m m'
      → SameMem conv size (put_cell k c m) (put_cell k c m')
  put_cell-Same k c m m' h a out = ground (arith, h a out)

module _ {conv size : ℕ} (apart : IsBuffer conv size) where
  new_line-Same : {d d' : Display} → Same conv size d d' → Same conv size (new_line d) (new_line d')
  unfolding new_line
  new_line-Same {d} {d'} s = record {
    screen_x = refl;
    screen_y = ground (arith, s.screen_y);
    io = ground (arith, s.io, s.screen_y);
    mem = λ a out.
        ground (
          arith,
          s.screen_y,
          s.mem a,
          move_screen_up-Same conv size apart d.mem d'.mem s.mem a out,
        );
  }

  print_char-Same :
      (c : ℕ) {d d' : Display}
      → Same conv size d d'
      → Same conv size (print_char c d) (print_char c d')
  unfolding print_char
  print_char-Same c {d} {d'} s =
      let cell = 80 * d.screen_y + d.screen_x in
      let written : SameMem conv size (put_cell cell c d.mem) (put_cell cell c d'.mem) =
        put_cell-Same conv size apart cell c d.mem d'.mem s.mem in
      record {
        screen_x = ground (arith, s.screen_x, s.screen_y);
        screen_y = ground (arith, s.screen_x, s.screen_y);
        io = ground (arith, s.io, s.screen_x, s.screen_y);
        mem = λ a out.
            rw (s.screen_x, s.screen_y)
              (ground (
                arith,
                written a out,
                move_screen_up-Same conv size apart (put_cell cell c d.mem) (put_cell cell c d'.mem)
                    written a out,
              ));
      }

  move_curser-Same :
      {d d' : Display} → Same conv size d d' → Same conv size (move_curser d) (move_curser d')
  unfolding move_curser
  move_curser-Same {d} {d'} s = record {
    screen_x = s.screen_x;
    screen_y = s.screen_y;
    io = rw (s.screen_x, s.screen_y, s.io) refl;
    mem = s.mem;
  }

  putc-Same : (c : ℕ) {d d' : Display} → Same conv size d d' → Same conv size (putc c d) (putc c d')
  unfolding putc
  putc-Same c {d} {d'} s = elim (Bool-cases (c == 10 || c == 13)) [
    | inl e ↦ rw e (move_curser-Same (new_line-Same s))
    | inr e ↦ rw e (move_curser-Same (print_char-Same c s))
  ]

  pub print_text-Same :
      (cs : List ℕ) {d d' : Display}
      → Same conv size d d'
      → Same conv size (print_text cs d) (print_text cs d')
  unfolding print_text
  print_text-Same [] s = s
  print_text-Same (c ∷ cs) s = print_text-Same cs (putc-Same c s)

pub print_text-InScreen : (cs : List ℕ) (d : Display) → InScreen d → InScreen (print_text cs d)
unfolding print_text
print_text-InScreen [] d v = v
print_text-InScreen (c ∷ cs) d v = print_text-InScreen cs (putc c d) (putc-InScreen c d v)

pub print_text-outside :
    (cs : List ℕ) (d : Display) (a : ℕ)
    → InScreen d
    → (a < video) ⊎ (video + 4000 ≤ a)
    → (print_text cs d).mem a ≡ d.mem a
unfolding print_text
print_text-outside [] d a v out = refl
print_text-outside (c ∷ cs) d a v out =
    print_text-outside cs (putc c d) a (putc-InScreen c d v) out ∙ putc-outside c d a v out

pub print_text-append :
    (cs ds : List ℕ) (d : Display) → print_text (cs ++ ds) d ≡ print_text ds (print_text cs d)
unfolding print_text
print_text-append [] ds d = refl
print_text-append (c ∷ cs) ds d = print_text-append cs ds (putc c d)

put_all-print_text :
    (m : Mem) (s n : ℕ) (d : Display) → put_all m s n d ≡ print_text (bytes_at m s n) d
unfolding put_all print_text
put_all-print_text m s zero d = refl
put_all-print_text m s (suc n) d = put_all-print_text m (s + 1) n (putc (m s) d)

-- What printing the text of `n` bytes at `s` does.
pub put_string-printed :
    (fuel s n : ℕ) (d : Display)
    → InScreen d
    → IsText d.mem s n
    → n < fuel
    → (s + n < video) ⊎ (video + 4000 ≤ s)
    → put_string fuel s d ≡ some (print_text (bytes_at d.mem s n) d)
put_string-printed fuel s n d v t lt out =
    rw (puts-put_all fuel s n d v t lt out, put_all-print_text d.mem s n d) refl
