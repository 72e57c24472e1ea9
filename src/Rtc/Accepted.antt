-- ===== src/Rtc/Accepted.antt =====
-- The rates that `rtc_write` accepts, and the bit operations on the nibbles of a register.
use chap_os.Common.{
  ℕ, ◌+◌, ◌*◌, ◌/◌, ◌^◌, ◌≤◌, ◌<◌, ◌≡◌, ◌↔◌, refl, ◌==◌, arith, bit_and, bit_or, inl, inr, Bool,
  true, false, not, ◌&&◌, ◌||◌, ltb, leb, if◌then◌else◌, tested, tested_at, ==_iff, Bool-cases,
}
use chap_os.Pic.Masks.{}
use chap_os.Rtc.{rejected}

-- The exponent of the largest power of two up to `w`, for `w` below 2 ^ 11.
abbrev pub exponent : ℕ → ℕ
exponent w =
    if ltb w 2
    then 0
    else if ltb w 4
    then 1
    else if ltb w 8
    then 2
    else if ltb w 16
    then 3
    else if ltb w 32
    then 4
    else if ltb w 64
    then 5
    else if ltb w 128
    then 6
    else if ltb w 256
    then 7
    else if ltb w 512
    then 8
    else if ltb w 1024
    then 9
    else 10

abbrev pub accepted_is_power : ℕ → Bool
accepted_is_power w = rejected w || (w == 2 ^ exponent w && leb (exponent w) 10)

pub power_table : tested 1025 accepted_is_power ≡ true
unfolding tested
power_table = refl

pub accepted_table : tested 11 (λ k. not (rejected (2 ^ k))) ≡ true
unfolding tested
accepted_table = refl

pub rejected_large : (w : ℕ) → 1024 < w → rejected w ≡ true
rejected_large w lt = ground arith

abbrev pub nibbles : ℕ → ℕ → Bool
nibbles x r = bit_or (bit_and x 0xF0) r == x / 16 * 16 + r

pub not-true : {b : Bool} → not b ≡ true → b ≡ false
not-true {b} h = ground arith

pub nibble_table : tested 256 (λ x. tested 16 (nibbles x)) ≡ true
unfolding tested
nibble_table = refl

pub nibbles_lem : (x r : ℕ) → x < 256 → r < 16 → bit_or (bit_and x 0xF0) r ≡ x / 16 * 16 + r
nibbles_lem x r hx hr =
    (==_iff _ _).0
      (tested_at 16 (nibbles x) r (tested_at 256 (λ x. tested 16 (nibbles x)) x nibble_table hx) hr)

-- `rtc_write` does not reject exactly the powers of two from 1 to 1024.
pub accepted_iff_power : (w : ℕ) → (rejected w ≡ false) ↔ ((k : ℕ) × (k ≤ 10) × (w ≡ 2 ^ k))
accepted_iff_power w = (to_power, from_power)
  where
    to_power : rejected w ≡ false → (k : ℕ) × (k ≤ 10) × (w ≡ 2 ^ k)
    to_power h = elim (Bool-cases (ltb 1024 w)) [
      | inl big ↦ absurd (ground (arith, rejected_large w))
      | inr small ↦ (
        exponent w,
        ground (arith, tested_at 1025 accepted_is_power w power_table),
        ground (arith, tested_at 1025 accepted_is_power w power_table),
      )
    ]

    from_power : ((k : ℕ) × (k ≤ 10) × (w ≡ 2 ^ k)) → rejected w ≡ false
    from_power (k, le, e) =
        rw e (not-true (tested_at 11 (λ k. not (rejected (2 ^ k))) k accepted_table (omega arith)))
