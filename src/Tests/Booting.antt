-- ===== src/Tests/Booting.antt =====
-- The theorems on start-up.
use chap_os.Common.{
  ℕ, suc, ◌+◌, ◌-◌, ◌≡◌, ◌≢◌, ◌∙◌, refl, arith, inl, Bool, true, false, not, ◌&&◌, leb, ◌==◌,
  if◌then◌else◌, List, [], ◌∷◌, length, get_or, codes, Mem,
}
use native.Mathlib.Nat.{add-zero}
use chap_os.Block.{store32}
use chap_os.Screen.{Display, clear}
use chap_os.Screen.Scroll.{clear-blanked}
use chap_os.Screen.Printf.Pieces.{Piece, literal, hex_8, IsUntouched, Reads, IsFormat}
use chap_os.Process.{Kernel, set_mem}
use chap_os.Boot.{Places, entry}
use chap_os.Boot.Refused.{literals, invalid_magic, told, Refusal, entry-Refusal}
use chap_os.Tests.{kernel, layout}
use chap_os.Tests.Processes.{silent}
use chap_os.Tests.Programs.{blank_desc}

-- The format lies at 500.
abbrev notes : Mem
notes a = if leb 500 a then get_or (codes "Invalid magic number: 0x%#x\n") (a - 500) 0 else 0

abbrev booting : Kernel
booting = set_mem notes kernel

abbrev shown : Display
shown = told 600 7 booting.console.display

cleared : (a : ℕ) → leb a 699 ≡ true → shown.mem a ≡ store32 notes 600 7 a
cleared a h = rw (clear-blanked booting.console.display) (ground arith)

untouched : (a : ℕ) → leb a 699 ≡ true → IsUntouched 700 a
untouched a h = record { off_screen = ground arith; off_buffer = ground arith }

reads : (a v : ℕ) → leb a 699 ≡ true → store32 notes 600 7 a ≡ v → Reads 700 shown.mem a v
reads a v h e = (untouched a h, cleared a h ∙ e)

-- A run of literal characters in the format.
is_literal : ℕ → ℕ → Bool
is_literal a c = leb a 699 && not (c == 0) && not (c == b'%') && store32 notes 600 7 a == c

one_literal : (a c : ℕ) → is_literal a c ≡ true → (c ≢ 0) × (c ≢ b'%') × Reads 700 shown.mem a c
unfolding is_literal
one_literal a c h = (ground arith, ground arith, reads a c (ground arith) (ground arith))

are_literals : ℕ → List ℕ → Bool
are_literals a [] = true
are_literals a (c ∷ cs) = if is_literal a c then are_literals (a + 1) cs else false

literals-IsFormat :
    (ls : List ℕ) (ps : List Piece) (a : ℕ)
    → are_literals a ls ≡ true
    → IsFormat 80 700 shown.mem (a + length ls) 600 ps
    → IsFormat 80 700 shown.mem a 600 (literals ls ps)
unfolding are_literals
literals-IsFormat [] ps a h f = rw (add-zero a) at f
literals-IsFormat (c ∷ cs) ps a h f =
    let here : is_literal a c ≡ true = ground (arith, h) in
    let rest : are_literals (a + 1) cs ≡ true = rw here at h in
    let next : a + suc (length cs) ≡ a + 1 + length cs = omega arith in
    let (nonzero, plain, read) = one_literal a c here in
    (nonzero, plain, read, literals-IsFormat cs ps (a + 1) rest (rw next at f))

is_format : IsFormat 80 700 shown.mem 500 600 (invalid_magic 7)
unfolding are_literals is_literal
is_format =
    literals-IsFormat (codes "Invalid magic number: 0x") (hex_8 7 ∷ literal b'\n' ∷ []) 500 refl (
      (reads 524 b'%' refl refl, reads 525 b'#' refl refl),
      reads 526 b'x' refl refl,
      (
        untouched 600 refl,
        untouched 601 refl,
        untouched 602 refl,
        untouched 603 refl,
        refl,
        omega arith,
      ),
      (λ e. omega arith, λ e. omega arith, reads 527 b'\n' refl refl, reads 528 0 refl refl),
    )

abbrev places : Places
places = record {
  ldt = 0x412000;
  ldt_size = 79;
  tss = 0x413000;
  tss_size = 104;
  ldt_bytes = blank_desc;
  tss_bytes = blank_desc;
}

entry-Refusal_example :
    Refusal 700 600 7 booting (entry silent layout 80 700 600 (λ t. 500) places 7 0 booting)
unfolding clear
entry-Refusal_example =
    entry-Refusal silent layout 80 700 600 (λ t. 500) places 7 0 booting (λ e. omega arith)
      (inl (omega arith)) (record { column = omega arith; row = omega arith }) is_format
      (omega arith)
