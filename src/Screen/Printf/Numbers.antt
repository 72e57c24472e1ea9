-- ===== src/Screen/Printf/Numbers.antt =====
-- The numerals that `itoa` leaves in memory, as lists of characters.
use chap_os.Common.{
  ℕ, zero, suc, ◌+◌, ◌-◌, ◌*◌, ◌^◌, ◌≤◌, ◌<◌, ◌≡◌, ◌≢◌, ◌⊎◌, ◌∙◌, refl, ap, arith, inl, inr, Option,
  List, [], ◌∷◌, ◌++◌, length, get_or, within, ltb, leb, false, Bool-cases, Mem, store,
  if◌then◌else◌,
}
use native.Mathlib.Nat.{add-zero, zero-add, pow-suc}
use chap_os.Text.Length.{IsText}
use chap_os.Text.DigitValues.{IsDigit, digit_value, value_of}
use chap_os.Text.Number.{Numeral}
use chap_os.Screen.Printf.{fill_zeros}
use chap_os.Screen.Printf.Pieces.{bytes_at, read_digits, AreDigits, IsNumeral, IsHex8}

bytes_at-snoc : (m : Mem) (s n : ℕ) → bytes_at m s (suc n) ≡ bytes_at m s n ++ m (s + n) ∷ []
bytes_at-snoc m s zero = rw (add-zero s) refl
bytes_at-snoc m s (suc n) =
    let next : s + 1 + n ≡ s + suc n = omega arith in
    ap (λ cs. m s ∷ cs) (rw next at (bytes_at-snoc m (s + 1) n))

read_digits-snoc :
    (radix acc c : ℕ) (cs : List ℕ)
    → read_digits radix acc (cs ++ c ∷ []) ≡ read_digits radix acc cs * radix + digit_value c
read_digits-snoc radix acc c [] = refl
read_digits-snoc radix acc c (d ∷ cs) = read_digits-snoc radix (acc * radix + digit_value d) c cs

pub read_digits-bytes_at :
    (m : Mem) (s radix n : ℕ) → read_digits radix 0 (bytes_at m s n) ≡ value_of m s radix n
unfolding value_of
read_digits-bytes_at m s radix zero = refl
read_digits-bytes_at m s radix (suc n) =
    rw
      (
        bytes_at-snoc m s n,
        read_digits-snoc radix 0 (m (s + n)) (bytes_at m s n),
        read_digits-bytes_at m s radix n,
      )
      refl

pub length-bytes_at : (m : Mem) (s n : ℕ) → length (bytes_at m s n) ≡ n
length-bytes_at m s zero = refl
length-bytes_at m s (suc n) = ap suc (length-bytes_at m (s + 1) n)

pub bytes_at-same :
    (m m' : Mem) (s n : ℕ)
    → ((i : ℕ) → i < n → m' (s + i) ≡ m (s + i))
    → bytes_at m' s n ≡ bytes_at m s n
bytes_at-same m m' s zero h = refl
bytes_at-same m m' s (suc n) h =
    let first : m' s ≡ m s = rw (add-zero s) at (h 0 (omega arith)) in
    rw
      (
        first,
        bytes_at-same m m' (s + 1) n (λ i lt.
            let next : s + 1 + i ≡ s + suc i = omega arith in rw next (h (suc i) (omega arith))),
      )
      refl

pub bytes_at-AreDigits :
    (m : Mem) (s radix n : ℕ)
    → ((i : ℕ) → i < n → IsDigit radix (m (s + i)))
    → AreDigits radix (bytes_at m s n)
bytes_at-AreDigits m s radix zero h = tt
bytes_at-AreDigits m s radix (suc n) h = (
  rw (add-zero s) at (h 0 (omega arith)),
  bytes_at-AreDigits m (s + 1) radix n
      (λ i lt. let next : s + 1 + i ≡ s + suc i = omega arith in rw next (h (suc i) (omega arith))),
)

first_byte : (m : Mem) (s n : ℕ) → 0 < n → get_or (bytes_at m s n) 0 0 ≡ m s
first_byte m s zero h = absurd (omega arith)
first_byte m s (suc n) h = refl

pub Numeral-IsNumeral :
    {m : Mem} {buf v radix : ℕ} {result : Option Mem} (d : Numeral m buf v radix result)
    → IsNumeral radix v (bytes_at d.out buf d.n)
Numeral-IsNumeral {buf = buf} {radix = radix} d = record {
  digits = bytes_at-AreDigits d.out buf radix d.n d.digits;
  value = read_digits-bytes_at d.out buf radix d.n ∙ d.value;
  nonempty = omega (arith, length-bytes_at d.out buf d.n, d.some_digits);
  leading = leading d.leading;
}
  where
    leading :
        (d.n ≡ 1) ⊎ (d.out buf ≢ b'0')
        → (length (bytes_at d.out buf d.n) ≡ 1) ⊎ (get_or (bytes_at d.out buf d.n) 0 0 ≢ b'0')
    leading (inl e) = inl (length-bytes_at d.out buf d.n ∙ e)
    leading (inr h) = inr (rw (first_byte d.out buf d.n d.some_digits) h)

-- A digit that is not `0` stands for more than zero.
digit_pos : (c : ℕ) → IsDigit 16 c → c ≢ b'0' → 0 < digit_value c
unfolding digit_value
digit_pos c h ne = ground arith

mul-pow : (n a : ℕ) → 16 ^ n ≤ a → 16 ^ suc n ≤ a * 16
mul-pow n a h = omega (arith, pow-suc 16 n)

value_of-ge : (m : Mem) (s n : ℕ) → 0 < digit_value (m s) → 16 ^ n ≤ value_of m s 16 (suc n)
unfolding value_of
value_of-ge m s zero h = rw (add-zero s) (omega arith)
value_of-ge m s (suc n) h = omega (arith, mul-pow n (value_of m s 16 (suc n)) (value_of-ge m s n h))

pow_mono : (k n : ℕ) → 16 ^ n ≤ 16 ^ (k + n)
pow_mono zero n = rw (zero-add n) (omega arith)
pow_mono (suc k) n =
    let next : suc k + n ≡ suc (k + n) = omega arith in
    rw next (omega (arith, pow_mono k n, pow-suc 16 (k + n)))

-- Nine digits or more, the first not `0`, stand for more than a word.
too_many_digits :
    (m : Mem) (s k : ℕ) → IsDigit 16 (m s) → m s ≢ b'0' → 2 ^ 32 ≤ value_of m s 16 (suc (k + 8))
too_many_digits m s k digit ne =
    omega (arith, value_of-ge m s (k + 8) (digit_pos (m s) digit ne), pow_mono k 8)

-- A word has at most eight hexadecimal digits.
pub hex_digits_le :
    {m : Mem} {buf v : ℕ} {result : Option Mem} (d : Numeral m buf v 16 result)
    → v < 2 ^ 32
    → d.n ≤ 8
hex_digits_le {buf = buf} {v = v} d h = elim (Bool-cases (leb d.n 8)) [
  | inl e ↦ ground arith
  | inr e ↦ absurd (many e d.leading)
]
  where
    many : leb d.n 8 ≡ false → (d.n ≡ 1) ⊎ (d.out buf ≢ b'0') → ⊥
    many e (inl one) = ground arith
    many e (inr ne) =
        let size : d.n ≡ suc (d.n - 9 + 8) = ground arith in
        let first : IsDigit 16 (d.out buf) = rw (add-zero buf) at (d.digits 0 d.some_digits) in
        let above : 2 ^ 32 ≤ value_of d.out buf 16 d.n =
          rw size (too_many_digits d.out buf (d.n - 9) first ne) in
        omega (arith, d.value)

pub fill_zeros-filled :
    (left i conv a : ℕ) (m : Mem)
    → fill_zeros left i conv m a ≡ (if within (conv + i) left a then b'0' else m a)
unfolding fill_zeros
fill_zeros-filled zero i conv a m = ground arith
fill_zeros-filled (suc left) i conv a m =
    ground (arith, fill_zeros-filled left (i + 1) conv a (store m (conv + i) b'0'))

value_of-zeros : (m : Mem) (s k : ℕ) → ((i : ℕ) → i < k → m (s + i) ≡ b'0') → value_of m s 16 k ≡ 0
unfolding value_of digit_value
value_of-zeros m s zero h = refl
value_of-zeros m s (suc k) h =
    let rest : value_of m s 16 k ≡ 0 = value_of-zeros m s k (λ i lt. h i (omega arith)) in
    rw (rest, h k (omega arith)) refl

-- Zeros in front do not change a value.
pub value_of-padded :
    (m : Mem) (s k n t : ℕ)
    → k + n ≡ t
    → ((i : ℕ) → i < k → m (s + i) ≡ b'0')
    → value_of m s 16 t ≡ value_of m (s + k) 16 n
unfolding value_of
value_of-padded m s k zero t e h = let all : t ≡ k = omega arith in rw all (value_of-zeros m s k h)
value_of-padded m s k (suc n) t e h =
    let size : t ≡ suc (k + n) = omega arith in
    let place : s + (k + n) ≡ s + k + n = omega arith in
    rw (size, value_of, value_of-padded m s k n (k + n) refl h, place) refl

pub value_of-same :
    (m m' : Mem) (s n : ℕ)
    → ((i : ℕ) → i < n → m' (s + i) ≡ m (s + i))
    → value_of m' s 16 n ≡ value_of m s 16 n
unfolding value_of
value_of-same m m' s zero h = refl
value_of-same m m' s (suc n) h =
    rw (value_of-same m m' s n (λ i lt. h i (omega arith)), h n (omega arith)) refl

zero-IsDigit : IsDigit 16 b'0'
unfolding digit_value
zero-IsDigit = ground arith

-- `k` zeros from `s` and then the text of `n` digits, eight characters in all.
module _ (m : Mem) (s k n : ℕ) (all : k + n ≡ 8) (zeros : (i : ℕ) → i < k → m (s + i) ≡ b'0')
    (text : IsText m (s + k) n) where
  at_digit : (i : ℕ) → k ≤ i → s + i ≡ s + k + (i - k)
  at_digit i h = omega arith

  pub padded-IsText : IsText m s 8
  padded-IsText = record { ends = rw (at_digit 8 (omega arith), size) text.ends; nonzero = nonzero }
    where
      size : 8 - k ≡ n
      size = omega arith

      nonzero : (i : ℕ) → i < 8 → m (s + i) ≢ 0
      nonzero i lt = elim (Bool-cases (ltb i k)) [
        | inl e ↦ rw (zeros i (ground arith)) (λ e. omega arith)
        | inr e ↦ rw (at_digit i (ground arith)) (text.nonzero (i - k) (ground arith))
      ]

  pub padded-IsHex8 :
      ((i : ℕ) → i < n → IsDigit 16 (m (s + k + i)))
      → IsHex8 (value_of m (s + k) 16 n) (bytes_at m s 8)
  padded-IsHex8 digits = (
    length-bytes_at m s 8,
    bytes_at-AreDigits m s 16 8 digit,
    read_digits-bytes_at m s 16 8 ∙ value_of-padded m s k n 8 all zeros,
  )
    where
      digit : (i : ℕ) → i < 8 → IsDigit 16 (m (s + i))
      digit i lt = elim (Bool-cases (ltb i k)) [
        | inl e ↦ rw (zeros i (ground arith)) zero-IsDigit
        | inr e ↦ rw (at_digit i (ground arith)) (digits (i - k) (ground arith))
      ]
