-- ===== src/Screen/Cursor.antt =====
-- The cursor and the cells round it, after each kind of `putc`.
use chap_os.Common.{
  ℕ, ◌+◌, ◌-◌, ◌*◌, ◌/◌, ◌%◌, ◌≤◌, ◌<◌, ◌≡◌, ◌⊎◌, arith, ◌==◌, ◌||◌, inl, inr, Bool-cases,
  if◌then◌else◌, List, ◌∷◌, Mem, min,
}
use chap_os.Screen.{
  Display, video, put_cell, move_screen_up, location, move_curser, new_line, print_char, putc,
}
use chap_os.Screen.Scroll.{move_screen_up-scrolled}

pub record InScreen (d : Display) : Type 0 where
  pub column : d.screen_x < 80
  pub row : d.screen_y < 25

-- The number of the cell that the cursor is on.
abbrev pub position : Display → ℕ
position d = 80 * d.screen_y + d.screen_x

abbrev pub char_at : Mem → ℕ → ℕ
char_at m k = m (video + 2 * k)

-- A character that is no line break is printed.
print_char-InScreen : (c : ℕ) (d : Display) → InScreen d → InScreen (print_char c d)
unfolding print_char
print_char-InScreen c d v = ground arith

new_line-InScreen : (d : Display) → InScreen d → InScreen (new_line d)
unfolding new_line
new_line-InScreen d v = ground arith

-- Whatever is printed, the cursor stays on the screen.
pub putc-InScreen : (c : ℕ) (d : Display) → InScreen d → InScreen (putc c d)
unfolding putc move_curser
putc-InScreen c d v = ground (arith, print_char-InScreen c d v, new_line-InScreen d v)

-- On the screen the location is the position.
location_lem : (x y : ℕ) → x < 80 → y < 25 → location x y ≡ 80 * y + x
unfolding location
location_lem x y h k = ground arith

abbrev pub cursor_bytes : ℕ → List (ℕ × ℕ) → List (ℕ × ℕ)
cursor_bytes p ws = (p % 256, 0x3D5) ∷ (0x0F, 0x3D4) ∷ (p / 256, 0x3D5) ∷ (0x0E, 0x3D4) ∷ ws

io-new_line : (d : Display) → (new_line d).io ≡ d.io
unfolding new_line
io-new_line d = ground arith

io-print_char : (c : ℕ) (d : Display) → (print_char c d).io ≡ d.io
unfolding print_char
io-print_char c d = ground arith

sent-from :
    (d e : Display)
    → InScreen e
    → e.io ≡ d.io
    → (move_curser e).io.writes ≡ cursor_bytes (position (move_curser e)) d.io.writes
unfolding move_curser
sent-from d e v h = ground (arith, location_lem e.screen_x e.screen_y)

-- After any `putc` the display controller has been told the cell that the cursor is on.
pub putc-cursor :
    (c : ℕ) (d : Display)
    → InScreen d
    → (putc c d).io.writes ≡ cursor_bytes (position (putc c d)) d.io.writes
unfolding putc
putc-cursor c d v = elim (Bool-cases (c == 10 || c == 13)) [
  | inl e ↦ rw e (sent-from d (new_line d) (new_line-InScreen d v) (io-new_line d))
  | inr e ↦ rw e (sent-from d (print_char c d) (print_char-InScreen c d v) (io-print_char c d))
]

-- The shift of the cells, in cells: a row if the screen is scrolled.
abbrev pub shift_by : Display → ℕ
shift_by d = if position d == 1999 then 80 else 0

-- Printing a character: the cursor goes to the next cell, or to the start of the last row if the
-- screen is full and scrolls by a row; the cell before the cursor has the character, and each cell
-- before that has the character that it, or the cell a row below it, had.
pub print_char-cells :
    (c : ℕ) (d : Display)
    → InScreen d
    → (position (print_char c d) + shift_by d ≡ position d + 1)
      × (char_at (print_char c d).mem (position (print_char c d) - 1) ≡ c)
      × ((k : ℕ)
          → k + 1 < position (print_char c d)
          → char_at (print_char c d).mem k ≡ char_at d.mem (k + shift_by d))
unfolding print_char
print_char-cells c d v =
    let written = put_cell (80 * d.screen_y + d.screen_x) c d.mem in
    (
      ground arith,
      ground (arith, move_screen_up-scrolled written (video + 2 * 1919)),
      λ k h. ground (arith, move_screen_up-scrolled written (video + 2 * k)),
    )

-- Starting a new line: the cursor goes to the first column, one row down while there is one, and on
-- the last row the screen scrolls instead; the interrupt driver is left alone.
pub new_line-cells :
    (d : Display)
    → InScreen d
    → let d' = new_line d in
      (d'.screen_x ≡ 0)
      × (d'.screen_y ≡ min (d.screen_y + 1) 24)
      × (d'.mem ≡ (if d.screen_y == 24 then move_screen_up d.mem else d.mem))
unfolding new_line
new_line-cells d v = ground arith

move_screen_up-outside :
    (m : Mem) (a : ℕ) → (a < video) ⊎ (video + 4000 ≤ a) → move_screen_up m a ≡ m a
move_screen_up-outside m a h = ground (arith, move_screen_up-scrolled m a)

new_line-outside :
    (d : Display) (a : ℕ) → (a < video) ⊎ (video + 4000 ≤ a) → (new_line d).mem a ≡ d.mem a
unfolding new_line
new_line-outside d a h = ground (arith, move_screen_up-outside d.mem a h)

print_char-outside :
    (c : ℕ) (d : Display) (a : ℕ)
    → InScreen d
    → (a < video) ⊎ (video + 4000 ≤ a)
    → (print_char c d).mem a ≡ d.mem a
unfolding print_char
print_char-outside c d a v h =
    ground (arith, move_screen_up-outside (put_cell (80 * d.screen_y + d.screen_x) c d.mem) a h)

-- No `putc` writes outside the screen's 4000 bytes.
pub putc-outside :
    (c : ℕ) (d : Display) (a : ℕ)
    → InScreen d
    → (a < video) ⊎ (video + 4000 ≤ a)
    → (putc c d).mem a ≡ d.mem a
unfolding putc move_curser
putc-outside c d a v h = ground (arith, new_line-outside d a h, print_char-outside c d a v h)
