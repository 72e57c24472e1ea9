-- ===== src/Screen/Scroll.antt =====
-- The loops over video memory as one assignment each.
use chap_os.Common.{
  ℕ, zero, suc, ◌+◌, ◌-◌, ◌*◌, ◌%◌, ◌≡◌, refl, ap, ◌∙◌, fun_ext, arith, ltb, ◌==◌, if◌then◌else◌,
  Mem, within,
}
use chap_os.Screen.{
  Display, video, attrib, put_cell, blank_cells, clear, shift_cols, shift_rows, move_screen_up,
}

-- `n` cells from cell `lo` blank.
abbrev pub blanked : ℕ → ℕ → Mem → Mem
blanked lo n m a =
    if within (video + 2 * lo) (2 * n) a then (if a % 2 == 0 then b' ' else attrib) else m a

-- `n` cells from cell `lo` with the characters of the cells one row below.
abbrev pub moved_up : ℕ → ℕ → Mem → Mem
moved_up lo n m a =
    if within (video + 2 * lo) (2 * n) a then (if a % 2 == 0 then m (a + 160) else attrib) else m a

blanked-cons : (lo n : ℕ) (m : Mem) → blanked (lo + 1) n (put_cell lo b' ' m) ≡ blanked lo (suc n) m
blanked-cons lo n m = fun_ext λ a. ground arith

blank_cells-blanked : (n lo : ℕ) (m : Mem) → blank_cells n lo m ≡ blanked lo n m
unfolding blank_cells
blank_cells-blanked zero lo m = fun_ext λ a. ground arith
blank_cells-blanked (suc n) lo m =
    blank_cells-blanked n (lo + 1) (put_cell lo b' ' m) ∙ blanked-cons lo n m

moved_up-cons :
    (lo n : ℕ) (m : Mem)
    → moved_up (lo + 1) n (put_cell lo (m (video + 2 * lo + 160)) m) ≡ moved_up lo (suc n) m
moved_up-cons lo n m = fun_ext λ a. ground arith

moved_up-append :
    (lo n k : ℕ) (m : Mem) → moved_up (lo + n) k (moved_up lo n m) ≡ moved_up lo (n + k) m
moved_up-append lo n k m = fun_ext λ a. ground arith

shift_cols-moved_up : (n x y : ℕ) (m : Mem) → shift_cols n x (y + 1) m ≡ moved_up (80 * y + x) n m
unfolding shift_cols
shift_cols-moved_up zero x y m = fun_ext λ a. ground arith
shift_cols-moved_up (suc n) x y m =
    let row : y + 1 - 1 ≡ y = omega arith in
    let below : video + 2 * (80 * (y + 1) + x) ≡ video + 2 * (80 * y + x) + 160 = omega arith in
    let next : 80 * y + (x + 1) ≡ 80 * y + x + 1 = omega arith in
    rw (row, below) (shift_cols-moved_up n (x + 1) y _ ∙ rw next (moved_up-cons (80 * y + x) n m))

shift_rows-moved_up : (n y : ℕ) (m : Mem) → shift_rows n (y + 1) m ≡ moved_up (80 * y) (80 * n) m
unfolding shift_rows
shift_rows-moved_up zero y m = fun_ext λ a. ground arith
shift_rows-moved_up (suc n) y m =
    let start : 80 * y + 0 ≡ 80 * y = omega arith in
    let next : 80 * (y + 1) ≡ 80 * y + 80 = omega arith in
    let all : 80 + 80 * n ≡ 80 * suc n = omega arith in
    rw (shift_cols-moved_up 80 0 y m, start)
      (shift_rows-moved_up n (y + 1) (moved_up (80 * y) 80 m)
        ∙ rw (next, moved_up-append (80 * y) 80 (80 * n) m, all) refl)

-- `move_screen_up` gives every row but the last the characters of the row below it, makes the last
-- row blank, gives every cell the one attribute, and changes nothing outside the screen.
pub move_screen_up-scrolled :
    (m : Mem) (a : ℕ)
    → move_screen_up m a ≡ (
        if within video 4000 a
        then (if a % 2 == 0 then (if ltb a (video + 3840) then m (a + 160) else b' ') else attrib)
        else m a)
unfolding move_screen_up
move_screen_up-scrolled m a =
    rw (blank_cells-blanked 80 1920 (shift_rows 24 1 m), shift_rows-moved_up 24 0 m) (ground arith)

-- `clear` makes every cell of the screen blank with the one attribute, and changes nothing else.
pub clear-blanked : (d : Display) → clear d ≡ record d { mem = blanked 0 2000 d.mem }
unfolding clear
clear-blanked d = ap (λ m. record d { mem = m }) (blank_cells-blanked 2000 0 d.mem)
