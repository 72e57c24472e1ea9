-- ===== src/Text/DigitValues.antt =====
-- Digits, and the numbers that they stand for.
use chap_os.Common.{
  ℕ, zero, suc, ◌+◌, ◌-◌, ◌*◌, ◌≤◌, ◌<◌, ◌≡◌, ◌≢◌, ◌⊎◌, Option, some, arith, refl, ltb,
  if◌then◌else◌, Mem,
}
use chap_os.Text.{lookup_digit}
use chap_os.Text.Reverse.{reversed_text}

unfoldable pub digit_value : ℕ → ℕ
digit_value c = if ltb c b'A' then c - b'0' else c - b'A' + 10

pub digit_value-lookup_digit : (i : ℕ) → i < 36 → digit_value (lookup_digit i) ≡ i
unfolding digit_value
digit_value-lookup_digit i h = ground arith

-- A character that stands for a digit in this radix.
abbrev pub IsDigit : ℕ → ℕ → Type 0
IsDigit radix c = (digit_value c < radix) × (lookup_digit (digit_value c) ≡ c)

pub lookup_digit-IsDigit : (radix i : ℕ) → radix ≤ 36 → i < radix → IsDigit radix (lookup_digit i)
lookup_digit-IsDigit radix i h lt =
    let back : digit_value (lookup_digit i) ≡ i = digit_value-lookup_digit i (omega arith) in
    rw back (lt, refl)

-- The value of the `n` digits from `s`, the first being the most significant.
unfoldable pub value_of : Mem → ℕ → ℕ → ℕ → ℕ
value_of m s radix zero = 0
value_of m s radix (suc n) = value_of m s radix n * radix + digit_value (m (s + n))

-- The value of the `n` digits from `p`, the first being the least significant.
unfoldable pub low_value : Mem → ℕ → ℕ → ℕ → ℕ
low_value m p radix zero = 0
low_value m p radix (suc n) = digit_value (m p) + radix * low_value m (p + 1) radix n

pub value_of-reversed :
    (m : Mem) (s radix size n : ℕ)
    → n ≤ size
    → value_of (reversed_text m s size) s radix n ≡ low_value m (s + (size - n)) radix n
unfolding value_of low_value
value_of-reversed m s radix size zero h = refl
value_of-reversed m s radix size (suc n) h =
    let here : s + (size - 1 - (s + n - s)) ≡ s + (size - suc n) = omega arith in
    let next : s + (size - suc n) + 1 ≡ s + (size - n) = omega arith in
    let inside : reversed_text m s size (s + n) ≡ m (s + (size - suc n)) = ground arith in
    rw (inside, next, value_of-reversed m s radix size n (omega arith)) (omega arith)

-- What the digit loop has done from `p`, for the value `v`.
pub record Digits (m : Mem) (p v radix fuel : ℕ) (result : Option (Mem × ℕ)) : Type 0 where
  pub out : Mem
  pub n : ℕ
  pub returns : result ≡ some (out, p + n)
  pub short : n ≤ fuel
  pub value : low_value out p radix n ≡ v
  pub nonzero : (i : ℕ) → i < n → out (p + i) ≢ 0
  pub digits : (i : ℕ) → i < n → IsDigit radix (out (p + i))
  pub outside : (a : ℕ) → (a < p) ⊎ (p + n ≤ a) → out a ≡ m a
  pub none_for_zero : v ≡ 0 → n ≡ 0
  pub some_for_nonzero : v ≢ 0 → 0 < n
  pub leading : (k : ℕ) → n ≡ suc k → out (p + k) ≢ b'0'
