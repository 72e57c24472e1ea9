-- ===== src/Screen.antt =====
-- The text screen of chapOS/student-distrib/lib.c: `clear`, `putc`, `puts`, `move_screen_up`,
-- `move_curser`, `test_interrupts` and the coordinates. Video memory is part of memory, at `VIDEO`:
-- for each of 25 rows of 80 cells a character byte and an attribute byte.
pub mod Scroll
pub mod Cursor
pub mod Puts
pub mod Printf
use chap_os.Common.{
  ℕ, zero, suc, ◌+◌, ◌-◌, ◌*◌, ◌/◌, ◌%◌, ◌^◌, ◌&&◌, ◌||◌, Option, none, some, List, [], ◌∷◌, ltb,
  leb, ◌==◌, if◌then◌else◌, Mem, store,
}
use chap_os.Pic.{Io, outb}

pub record Display : Type 0 where
  pub screen_x : ℕ
  pub screen_y : ℕ
  pub mem : Mem
  pub io : Io

abbrev pub video : ℕ
video = 0xB8000

abbrev pub num_cols : ℕ
num_cols = 80

abbrev pub num_rows : ℕ
num_rows = 25

abbrev pub attrib : ℕ
attrib = 2

-- The character byte and the attribute byte of cell `k`.
abbrev pub put_cell : ℕ → ℕ → Mem → Mem
put_cell k c m = store (store m (video + 2 * k) c) (video + 2 * k + 1) attrib

-- Blank cells, `left` of them from cell `k` on: the loop of `clear`, and the last one of
-- `move_screen_up`.
pub blank_cells : (left : ℕ) → ℕ → Mem → Mem
blank_cells zero k m = m
blank_cells (suc left) k m = blank_cells left (k + 1) (put_cell k b' ' m)

unfoldable pub clear : Display → Display
clear d = record d { mem = blank_cells (num_rows * num_cols) 0 d.mem }

-- The two loops of `move_screen_up` over columns and rows.
pub shift_cols : (left : ℕ) → ℕ → ℕ → Mem → Mem
shift_cols zero x y m = m
shift_cols (suc left) x y m =
    shift_cols left (x + 1) y
      (put_cell (num_cols * (y - 1) + x) (m (video + 2 * (num_cols * y + x))) m)

pub shift_rows : (left : ℕ) → ℕ → Mem → Mem
shift_rows zero y m = m
shift_rows (suc left) y m = shift_rows left (y + 1) (shift_cols num_cols 0 y m)

unfoldable pub move_screen_up : Mem → Mem
move_screen_up m = blank_cells num_cols (num_cols * (num_rows - 1)) (shift_rows (num_rows - 1) 1 m)

-- `location` is a `uint16_t`.
unfoldable pub location : ℕ → ℕ → ℕ
location x y =
    let at = (x + y * num_cols) % 2 ^ 16 in
    if leb (num_cols * num_rows) at then num_cols * num_rows - 1 else at

unfoldable pub move_curser : Display → Display
move_curser d =
    let at = location d.screen_x d.screen_y in
    let io1 = outb (at / 2 ^ 8) 0x3D5 (outb 0x0E 0x3D4 d.io) in
    record d { io = outb (at % 2 ^ 8) 0x3D5 (outb 0x0F 0x3D4 io1) }

abbrev pub set_coord_x : ℕ → Display → Display
set_coord_x value d = record d { screen_x = value }

abbrev pub set_coord_y : ℕ → Display → Display
set_coord_y value d = record d { screen_y = value }

abbrev pub scroll : Display → Display
scroll d = record d { mem = move_screen_up d.mem }

-- The branch of `putc` for a line feed or a carriage return.
unfoldable pub new_line : Display → Display
new_line d =
    set_coord_x 0
      (if ltb d.screen_y (num_rows - 1) then set_coord_y (d.screen_y + 1) d else scroll d)

-- The branch for any other character: print, step right, then wrap or scroll.
unfoldable pub print_char : ℕ → Display → Display
print_char c d =
    let d1 = record d {
      mem = put_cell (num_cols * d.screen_y + d.screen_x) c d.mem;
      screen_x = d.screen_x + 1;
    } in
    let d2 =
      if leb (num_rows - 1) d1.screen_y && leb num_cols d1.screen_x
      then scroll d1
      else if leb num_cols d1.screen_x
      then set_coord_y (d1.screen_y + 1) d1
      else d1 in
    set_coord_x (d2.screen_x % num_cols) d2

unfoldable pub putc : ℕ → Display → Display
putc c d = move_curser (if c == 10 || c == 13 then new_line d else print_char c d)

-- A text printed character by character, as `printf` does with what is no conversion.
unfoldable pub print_text : List ℕ → Display → Display
print_text [] d = d
print_text (k ∷ ks) d = print_text ks (putc k d)

pub puts_from : ℕ → ℕ → ℕ → Display → Option (ℕ × Display)
puts_from zero s index d = none
puts_from (suc fuel) s index d =
    let rest = puts_from fuel s (index + 1) (putc (d.mem (s + index)) d) in
    if d.mem (s + index) == 0 then some (index, d) else rest

pub puts : ℕ → ℕ → Display → Option (ℕ × Display)
puts fuel s d = puts_from fuel s 0 d

-- `video_mem[i << 1]++`, on a signed `char`, for `left` cells from `i` on.
unfoldable pub bump_cells : (left : ℕ) → ℕ → Mem → Mem
bump_cells zero i m = m
bump_cells (suc left) i m =
    bump_cells left (i + 1) (store m (video + 2 * i) ((m (video + 2 * i) + 1) % 2 ^ 8))

unfoldable pub test_interrupts : Display → Display
test_interrupts d = record d { mem = bump_cells (num_rows * num_cols) 0 d.mem }
