-- ===== src/Common/Memory.antt =====
-- Byte-addressed memory, as C's pointers see it, and ranges of addresses.
use Prim.Native.Nat.{ℕ, ◌+◌, ◌-◌, ◌*◌, ◌^◌, ◌≤◌, ◌<◌}
use mathlib.Core.Path.{◌≡◌, fun_ext, refl}
use mathlib.Core.Bool.{true, Bool, ◌&&◌}
use mathlib.Core.Logic.{◌⊎◌}
use native.Mathlib.Omega.{arith}
use chap_os.Common.Tests.{ltb, leb, ◌==◌, if◌then◌else◌}

abbrev pub Mem : Type 0
Mem = ℕ → ℕ

-- `*(uint8_t *) p = v`
abbrev pub store : Mem → ℕ → ℕ → Mem
store m p v a = if a == p then v else m a

abbrev pub within : ℕ → ℕ → ℕ → Bool
within lo n a = leb lo a && ltb a (lo + n)

-- Two ranges of `n` bytes have no address in common.
abbrev pub Apart : ℕ → ℕ → ℕ → Type 0
Apart p q n = (p + n ≤ q) ⊎ (q + n ≤ p)

-- Memory after the `n` bytes at `src` have been copied to `dest`, as one assignment.
abbrev pub copied : Mem → ℕ → ℕ → ℕ → Mem
copied m dest src n a = if within dest n a then m (src + (a - dest)) else m a

-- Memory after the `n` bytes at `dest` have been set to `v`.
abbrev pub filled : Mem → ℕ → ℕ → ℕ → Mem
filled m dest n v a = if within dest n a then v else m a

-- A little-endian 32-bit read and write.
abbrev pub load32 : Mem → ℕ → ℕ
load32 m p = m p + 2 ^ 8 * m (p + 1) + 2 ^ 16 * m (p + 2) + 2 ^ 24 * m (p + 3)

pub copied-zero : (m : Mem) (d s : ℕ) → copied m d s 0 ≡ m
copied-zero m d s = fun_ext λ a. ground arith

pub filled-zero : (m : Mem) (d v : ℕ) → filled m d 0 v ≡ m
filled-zero m d v = fun_ext λ a. ground arith

-- One more byte of a copy that goes upwards; the source byte is still the old one.
pub copied-suc :
    (m : Mem) (d s i : ℕ)
    → (d ≤ s) ⊎ (s + i < d)
    → store (copied m d s i) (d + i) (copied m d s i (s + i)) ≡ copied m d s (i + 1)
copied-suc m d s i h = fun_ext λ a. ground arith

pub filled-suc : (m : Mem) (d i v : ℕ) → store (filled m d i v) (d + i) v ≡ filled m d (i + 1) v
filled-suc m d i v = fun_ext λ a. ground arith

-- Memory once the `n` bytes at `dest` are those of `g`.
abbrev pub placed : Mem → ℕ → ℕ → (ℕ → ℕ) → Mem
placed m dest n g a = if within dest n a then g (a - dest) else m a

pub placed-other :
    (m : Mem) (dest n a : ℕ) (g : ℕ → ℕ) → (a < dest) ⊎ (dest + n ≤ a) → placed m dest n g a ≡ m a
placed-other m dest n a g h = ground arith

pub placed-at : (m : Mem) (dest n i : ℕ) (g : ℕ → ℕ) → i < n → placed m dest n g (dest + i) ≡ g i
placed-at m dest n i g lt =
    let inside : within dest n (dest + i) ≡ true = ground arith in
    let back : dest + i - dest ≡ i = omega arith in rw (inside, back) refl

pub placed-zero : (m : Mem) (dest : ℕ) (g : ℕ → ℕ) → placed m dest 0 g ≡ m
placed-zero m dest g = fun_ext λ a. ground arith

pub placed-suc :
    (m : Mem) (dest i : ℕ) (g : ℕ → ℕ)
    → store (placed m dest i g) (dest + i) (g i) ≡ placed m dest (i + 1) g
placed-suc m dest i g = fun_ext λ a. ground arith

pub load32-placed :
    (m : Mem) (dest n q : ℕ) (g : ℕ → ℕ)
    → (q + 4 ≤ dest) ⊎ (dest + n ≤ q)
    → load32 (placed m dest n g) q ≡ load32 m q
load32-placed m dest n q g h =
    let same : (r : ℕ) → q ≤ r → r < q + 4 → placed m dest n g r ≡ m r =
      λ r l u. placed-other m dest n r g (omega arith) in
    rw
      (
        same q (omega arith) (omega arith),
        same (q + 1) (omega arith) (omega arith),
        same (q + 2) (omega arith) (omega arith),
        same (q + 3) (omega arith) (omega arith),
      )
      refl
