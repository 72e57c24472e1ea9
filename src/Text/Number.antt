-- ===== src/Text/Number.antt =====
-- `itoa` against reading a numeral: the text that it writes stands for the value.
use chap_os.Common.{
  ℕ, zero, suc, ◌+◌, ◌-◌, ◌*◌, ◌/◌, ◌%◌, ◌^◌, ◌≤◌, ◌<◌, ◌≡◌, ◌≢◌, ◌⊎◌, ◌==◌, Option, some, arith,
  inl, inr, Bool-cases, refl, ◌∙◌, ap, Mem, store,
}
use native.Mathlib.Nat.{add-zero, div-add-mod, mod-lt, pow-suc}
use chap_os.Text.{lookup_digit, itoa_digits, strrev, itoa}
use chap_os.Text.Length.{IsText}
use chap_os.Text.Reverse.{reversed_text, strrev-reversed}
use chap_os.Text.DigitValues.{
  digit_value, digit_value-lookup_digit, IsDigit, lookup_digit-IsDigit, value_of, low_value,
  value_of-reversed, Digits,
}

lookup_digit-zero : (i : ℕ) → lookup_digit i ≡ b'0' → i ≡ 0
lookup_digit-zero i h = ground arith

lookup_digit-ne-zero : (i : ℕ) → lookup_digit i ≢ 0
lookup_digit-ne-zero i = ground arith

mul-le-mul-right : (a b c : ℕ) → b ≤ a → b * c ≤ a * c
mul-le-mul-right a b c h = grind arith

div-lt_half : (v q radix : ℕ) → 2 ≤ radix → v < 2 * q → v / radix < q
div-lt_half v q radix h lt =
    ground (arith, div-add-mod v radix, mul-le-mul-right radix 2 (v / radix) h)

module _ (radix : ℕ) (at_least_two : 2 ≤ radix) (at_most : radix ≤ 36) where
  digit_back : (v : ℕ) → digit_value (lookup_digit (v % radix)) + radix * (v / radix) ≡ v
  digit_back v = omega (
    arith,
    digit_value-lookup_digit (v % radix) (omega (arith, mod-lt v {m = radix})),
    div-add-mod v radix,
  )

  Digits-none : (m : Mem) (p fuel : ℕ) → Digits m p 0 radix fuel (some (m, p))
  unfolding low_value
  Digits-none m p fuel = record {
    out = m;
    n = 0;
    returns = ap (λ q. some (m, q)) (omega arith);
    short = omega arith;
    value = refl;
    nonzero = λ i h. absurd (omega arith);
    digits = λ i h. absurd (omega arith);
    outside = λ a h. refl;
    none_for_zero = λ _. refl;
    some_for_nonzero = λ h. absurd (h refl);
    leading = λ k e. absurd (omega arith);
  }

  -- One digit in front of the digits of the rest.
  Digits-cons :
      (m : Mem) (p v fuel : ℕ) {result : Option (Mem × ℕ)}
      → v ≢ 0
      → Digits (store m p (lookup_digit (v % radix))) (p + 1) (v / radix) radix fuel result
      → Digits m p v radix (suc fuel) result
  unfolding low_value
  Digits-cons m p v fuel {result} v0 rest = record {
    out = rest.out;
    n = suc rest.n;
    returns = rest.returns ∙ ap (λ q. some (rest.out, q)) (omega arith);
    short = omega (arith, rest.short);
    value = rw (first, rest.value) (digit_back v);
    nonzero = nonzero_digit;
    digits = digit;
    outside = λ a h. ground (arith, rest.outside a);
    none_for_zero = λ e. absurd (v0 e);
    some_for_nonzero = λ _. omega arith;
    leading = λ k e. leading_digit k (omega arith);
  }
    where
      first : rest.out p ≡ lookup_digit (v % radix)
      first = ground (arith, rest.outside p)

      nonzero_digit : (i : ℕ) → i < suc rest.n → rest.out (p + i) ≢ 0
      nonzero_digit zero lt = rw (add-zero p, first) (lookup_digit-ne-zero (v % radix))
      nonzero_digit (suc i) lt =
          let shift : p + suc i ≡ p + 1 + i = omega arith in rw shift (rest.nonzero i (omega arith))

      digit : (i : ℕ) → i < suc rest.n → IsDigit radix (rest.out (p + i))
      digit zero lt =
          rw (add-zero p, first)
            (lookup_digit-IsDigit radix (v % radix) at_most (omega (arith, mod-lt v {m = radix})))
      digit (suc i) lt =
          let shift : p + suc i ≡ p + 1 + i = omega arith in rw shift (rest.digits i (omega arith))

      leading_digit : (k : ℕ) → rest.n ≡ k → rest.out (p + k) ≢ b'0'
      leading_digit zero e =
          rw (add-zero p, first)
            (λ bad. ground (
              arith,
              rest.some_for_nonzero,
              div-add-mod v radix,
              lookup_digit-zero (v % radix) bad,
            ))
      leading_digit (suc k) e =
          let shift : p + suc k ≡ p + 1 + k = omega arith in rw shift (rest.leading k e)

  itoa_digits-Digits :
      (fuel : ℕ) (m : Mem) (p v : ℕ)
      → v < 2 ^ fuel
      → Digits m p v radix fuel (itoa_digits fuel m p v radix)
  unfolding itoa_digits low_value
  itoa_digits-Digits zero m p v h =
      let v0 : v ≡ 0 = omega arith in rw (v0, itoa_digits) (Digits-none m p 0)
  itoa_digits-Digits (suc fuel) m p v h = elim (Bool-cases (v == 0)) [
    | inl e ↦ let v0 : v ≡ 0 = ground arith in rw (v0, itoa_digits) (Digits-none m p (suc fuel))
    | inr e ↦
        rw (e, itoa_digits)
          (Digits-cons m p v fuel (ground arith) (
            itoa_digits-Digits fuel (store m p (lookup_digit (v % radix))) (p + 1) (v / radix)
              (div-lt_half v (2 ^ fuel) radix at_least_two (omega (arith, pow-suc 2 fuel)))))
  ]

low_value-store :
    (m : Mem) (q x p radix n : ℕ)
    → p + n ≤ q
    → low_value (store m q x) p radix n ≡ low_value m p radix n
unfolding low_value
low_value-store m q x p radix zero h = refl
low_value-store m q x p radix (suc n) h =
    let here : store m q x p ≡ m p = ground arith in
    rw (here, low_value-store m q x (p + 1) radix n (omega arith)) refl

-- The result holds the numeral of `v` at `buf`: `n` digits and a zero byte, most significant digit
-- first, with no needless leading zero, and nothing else changed.
pub record Numeral (m : Mem) (buf v radix : ℕ) (result : Option Mem) : Type 0 where
  pub out : Mem
  pub n : ℕ
  pub returns : result ≡ some out
  pub text : IsText out buf n
  pub some_digits : 0 < n
  pub digits : (i : ℕ) → i < n → IsDigit radix (out (buf + i))
  pub short : n ≤ 32
  pub value : value_of out buf radix n ≡ v
  pub leading : (n ≡ 1) ⊎ (out buf ≢ b'0')
  pub outside : (a : ℕ) → (a < buf) ⊎ (buf + n < a) → out a ≡ m a

module _ (radix : ℕ) (at_least_two : 2 ≤ radix) (at_most : radix ≤ 36) where
  zero_Numeral :
      (m : Mem) (buf : ℕ) → Numeral m buf 0 radix (some (store (store m buf b'0') (buf + 1) 0))
  unfolding value_of digit_value
  zero_Numeral m buf = record {
    out = store (store m buf b'0') (buf + 1) 0;
    n = 1;
    returns = refl;
    text = record { ends = ground arith; nonzero = λ i h. ground arith };
    some_digits = omega arith;
    digits = zero_digit;
    short = omega arith;
    value = ground (arith, add-zero buf);
    leading = inl refl;
    outside = λ a h. ground arith;
  }
    where
      zero_digit : (i : ℕ) → i < 1 → IsDigit radix (store (store m buf b'0') (buf + 1) 0 (buf + i))
      zero_digit i lt =
          let here : store (store m buf b'0') (buf + 1) 0 (buf + i) ≡ lookup_digit 0 =
            ground arith in
          rw here (lookup_digit-IsDigit radix 0 at_most (omega arith))

  reversed-Numeral :
      (m : Mem) (buf v : ℕ) {result : Option (Mem × ℕ)}
      → v ≢ 0
      → (d : Digits m buf v radix 32 result)
      → Numeral m buf v radix (strrev 33 (store d.out (buf + d.n) 0) buf)
  reversed-Numeral m buf v v0 d = record {
    out = reversed_text ended buf d.n;
    n = d.n;
    returns = strrev-reversed 33 ended buf d.n text (omega (arith, d.short));
    text = record {
      ends = ground arith;
      nonzero = λ i h. ground (arith, text.nonzero (d.n - 1 - i));
    };
    some_digits = d.some_for_nonzero v0;
    digits = λ i h.
        let here : reversed_text ended buf d.n (buf + i) ≡ d.out (buf + (d.n - 1 - i)) =
          ground arith in
        rw here (d.digits (d.n - 1 - i) (omega arith));
    short = d.short;
    value =
        value_of-reversed ended buf radix d.n d.n (omega arith)
        ∙ (ap (λ p. low_value ended p radix d.n) (omega arith)
            ∙ (low_value-store d.out (buf + d.n) 0 buf radix d.n (omega arith) ∙ d.value));
    leading = inr (ground (arith, d.some_for_nonzero v0, d.leading (d.n - 1)));
    outside = λ a h. ground (arith, d.outside a);
  }
    where
      ended : Mem
      ended = store d.out (buf + d.n) 0

      text : IsText ended buf d.n
      text = record { ends = ground arith; nonzero = λ i h. ground (arith, d.nonzero i) }

-- For a 32-bit value and a radix from 2 to 36, `itoa` returns, and leaves at `buf` the numeral of
-- the value in that radix: digits whose value is `v`, at most 32, with no needless leading zero.
pub itoa-Numeral :
    (m : Mem) (v buf radix : ℕ)
    → 2 ≤ radix
    → radix ≤ 36
    → v < 2 ^ 32
    → Numeral m buf v radix (itoa m v buf radix)
unfolding itoa
itoa-Numeral m v buf radix lo hi fits = elim (Bool-cases (v == 0)) [
  | inl e ↦ let v0 : v ≡ 0 = ground arith in rw (v0, itoa) (zero_Numeral radix lo hi m buf)
  | inr e ↦
      let d = itoa_digits-Digits radix lo hi 32 m buf v fits in
      rw (e, d.returns, itoa) (reversed-Numeral radix lo hi m buf v (ground arith) d)
]
