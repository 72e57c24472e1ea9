-- ===== src/Common/Bits.antt =====
-- Bytes under `bit_and` and `bit_or`: facts checked at every value by evaluation.
use Prim.Native.Nat.{ℕ, zero, suc, ◌-◌, ◌/◌, ◌%◌, ◌^◌, ◌<◌, bit_and, bit_or}
use mathlib.Core.Path.{◌≡◌, refl}
use mathlib.Core.Logic.{inl, inr}
use mathlib.Core.Bool.{Bool, true, false, ◌&&◌}
use native.Mathlib.Omega.{arith}
use chap_os.Common.Tests.{◌==◌, if◌then◌else◌, ==_iff, Bool-cases}

-- A test that every number below `limit` passes, as one run of it.
unfoldable pub tested : (limit : ℕ) → (ℕ → Bool) → Bool
tested zero test = true
tested (suc last) test = if test last then tested last test else false

pub tested_at :
    (limit : ℕ) (test : ℕ → Bool) (k : ℕ) → tested limit test ≡ true → k < limit → test k ≡ true
unfolding tested
tested_at zero test k passed below = absurd (omega arith)
tested_at (suc last) test k passed below = elim (Bool-cases (test last)) [
  | inl e ↦
      let rest : tested last test ≡ true = rw e at passed in
      ground (arith, tested_at last test k rest)
  | inr e ↦ ground arith
]

-- `(uint8_t)(0x01 << k)`
abbrev pub single_bit : ℕ → ℕ
single_bit k = 2 ^ k % 2 ^ 8

-- Bit `k` of `x`.
abbrev pub bit : ℕ → ℕ → ℕ
bit x k = x / 2 ^ k % 2

abbrev clear_law : ℕ → ℕ → ℕ → Bool
clear_law x k j = bit (bit_and x (255 - single_bit k)) j == (if j == k then 0 else bit x j)

abbrev set_law : ℕ → ℕ → ℕ → Bool
set_law x k j = bit (bit_or x (single_bit k)) j == (if j == k then 1 else bit x j)

clear_table : tested 256 (λ x. tested 8 (λ k. tested 8 (clear_law x k))) ≡ true
unfolding tested
clear_table = refl

set_table : tested 256 (λ x. tested 8 (λ k. tested 8 (set_law x k))) ≡ true
unfolding tested
set_table = refl

pub bit-clear :
    (x k j : ℕ)
    → x < 256
    → k < 8
    → j < 8
    → bit (bit_and x (255 - single_bit k)) j ≡ (if j == k then 0 else bit x j)
bit-clear x k j hx hk hj = (==_iff _ _).0 (
    tested_at 8 (clear_law x k) j
      (tested_at 8 (λ k. tested 8 (clear_law x k)) k
        (tested_at 256 (λ x. tested 8 (λ k. tested 8 (clear_law x k))) x clear_table hx) hk)
      hj)

pub bit-set :
    (x k j : ℕ)
    → x < 256
    → k < 8
    → j < 8
    → bit (bit_or x (single_bit k)) j ≡ (if j == k then 1 else bit x j)
bit-set x k j hx hk hj = (==_iff _ _).0 (
    tested_at 8 (set_law x k) j
      (tested_at 8 (λ k. tested 8 (set_law x k)) k
        (tested_at 256 (λ x. tested 8 (λ k. tested 8 (set_law x k))) x set_table hx) hk)
      hj)

abbrev and_small : ℕ → ℕ → Bool
and_small x y = bit_and x y / 256 == 0

abbrev or_small : ℕ → ℕ → Bool
or_small x y = bit_or x y / 256 == 0

small_table : tested 256 (λ x. tested 256 (λ y. and_small x y && or_small x y)) ≡ true
unfolding tested
small_table = refl

small : (x y : ℕ) → x < 256 → y < 256 → (and_small x y && or_small x y) ≡ true
small x y hx hy =
    tested_at 256 (λ y. and_small x y && or_small x y) y
      (tested_at 256 (λ x. tested 256 (λ y. and_small x y && or_small x y)) x small_table hx) hy

pub bit_and-lt : (x y : ℕ) → x < 256 → y < 256 → bit_and x y < 256
bit_and-lt x y hx hy = ground (arith, small x y hx hy)

pub bit_or-lt : (x y : ℕ) → x < 256 → y < 256 → bit_or x y < 256
bit_or-lt x y hx hy = ground (arith, small x y hx hy)
