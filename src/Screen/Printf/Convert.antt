-- ===== src/Screen/Printf/Convert.antt =====
-- Each conversion prints the characters that it stands for.
use chap_os.Common.{
  ℕ, zero, suc, ◌+◌, ◌-◌, ◌^◌, ◌≤◌, ◌<◌, ◌≡◌, ◌≢◌, ◌⊎◌, refl, ap, ◌∙◌, arith, Bool-cases, inl, inr,
  if◌then◌else◌, ◌>>=◌, Option, some, List, ◌∷◌, Mem, store, leb, within,
}
use native.Mathlib.Nat.{add-zero}
use chap_os.Text.Length.{IsText, strlen_total}
use chap_os.Text.DigitValues.{value_of}
use chap_os.Text.Number.{Numeral, itoa-Numeral}
use chap_os.Screen.{Display, video, print_text}
use chap_os.Screen.Cursor.{InScreen}
use chap_os.Screen.Printf.{
  with_mem, put_string, fill_zeros, print_hex, print_hex_8, print_unsigned, print_signed,
}
use chap_os.Screen.Printf.Pieces.{bytes_at, IsNumeral, IsSigned, IsHex8}
use chap_os.Screen.Printf.Numbers.{
  Numeral-IsNumeral, hex_digits_le, fill_zeros-filled, value_of-same, padded-IsText, padded-IsHex8,
}
use chap_os.Screen.Printf.Same.{
  IsBuffer, SameMem, Same, with_mem-Same, print_text-Same, put_string-printed,
}

-- Characters of the wanted kind were printed, up to the conversion buffer.
pub record Shown (conv : ℕ) (b : Display) (Q : List ℕ → Type 0) (result : Option Display)
    : Type 0 where
  pub chars : List ℕ
  pub renders : Q chars
  pub out : Display
  pub returns : result ≡ some out
  pub same : Same conv 64 (print_text chars b) out

pub Shown-map :
    {conv : ℕ} {b : Display} {Q R : List ℕ → Type 0} {result : Option Display}
    → ((cs : List ℕ) → Q cs → R cs)
    → Shown conv b Q result
    → Shown conv b R result
Shown-map f s = record {
  chars = s.chars;
  renders = f s.chars s.renders;
  out = s.out;
  returns = s.returns;
  same = s.same;
}

module _ {conv : ℕ} (apart : IsBuffer conv 64) (fuel : ℕ) (enough : 40 ≤ fuel) {b d : Display}
    (on_screen : InScreen b) (s : Same conv 64 b d) where
  d-InScreen : InScreen d
  d-InScreen = record { column = rw s.screen_x on_screen.column; row = rw s.screen_y on_screen.row }

  -- A text that lies in the buffer, or anywhere off the screen.
  pub text-Shown :
      (Q : List ℕ → Type 0) (m : Mem) (at n : ℕ)
      → SameMem conv 64 d.mem m
      → IsText m at n
      → n < fuel
      → (at + n < video) ⊎ (video + 4000 ≤ at)
      → Q (bytes_at m at n)
      → Shown conv b Q (put_string fuel at (with_mem m d))
  text-Shown Q m at n kept t lt out q = record {
    chars = bytes_at m at n;
    renders = q;
    out = print_text (bytes_at m at n) (with_mem m d);
    returns =
        put_string-printed fuel at n (with_mem m d)
          (record { column = d-InScreen.column; row = d-InScreen.row }) t lt out;
    same = print_text-Same apart (bytes_at m at n) (with_mem-Same m s kept);
  }

  Numeral-Shown :
      (radix v : ℕ) {result : Option Mem}
      → (n : Numeral d.mem conv v radix result)
      → Shown conv b (IsNumeral radix v) (result >>= λ m. put_string fuel conv (with_mem m d))
  Numeral-Shown radix v n = rw n.returns (
      text-Shown (IsNumeral radix v) n.out conv n.n (λ a out. n.outside a (omega (arith, n.short)))
        n.text (omega (arith, n.short)) (omega (arith, n.short)) (Numeral-IsNumeral n))

  pub print_hex-Shown :
      (v : ℕ) → v < 2 ^ 32 → Shown conv b (IsNumeral 16 v) (print_hex fuel conv v d)
  unfolding print_hex
  print_hex-Shown v h =
      Numeral-Shown 16 v (itoa-Numeral d.mem v conv 16 (omega arith) (omega arith) h)

  pub print_unsigned-Shown :
      (v : ℕ) → v < 2 ^ 32 → Shown conv b (IsNumeral 10 v) (print_unsigned fuel conv v d)
  unfolding print_unsigned
  print_unsigned-Shown v h =
      Numeral-Shown 10 v (itoa-Numeral d.mem v conv 10 (omega arith) (omega arith) h)

  minus-IsText :
      {m : Mem} {w : ℕ} {result : Option Mem} (n : Numeral m (conv + 1) w 10 result)
      → n.out conv ≡ b'-'
      → IsText n.out conv (suc n.n)
  minus-IsText n sign = record {
    ends = let next : conv + suc n.n ≡ conv + 1 + n.n = omega arith in rw next n.text.ends;
    nonzero = nonzero;
  }
    where
      nonzero : (i : ℕ) → i < suc n.n → n.out (conv + i) ≢ 0
      nonzero zero lt = rw (add-zero conv, sign) (λ e. omega arith)
      nonzero (suc i) lt =
          let next : conv + suc i ≡ conv + 1 + i = omega arith in
          rw next (n.text.nonzero i (omega arith))

  -- `-`, and the numeral of `v` behind it.
  minus-Shown :
      (v w : ℕ) {result : Option Mem}
      → 2 ^ 31 ≤ v
      → w ≡ 2 ^ 32 - v
      → (n : Numeral (store d.mem conv b'-') (conv + 1) w 10 result)
      → Shown conv b (IsSigned v) (result >>= λ m. put_string fuel conv (with_mem m d))
  minus-Shown v w big e n =
      let sign : n.out conv ≡ b'-' = ground (arith, n.outside conv) in
      rw n.returns (
        text-Shown (IsSigned v) n.out conv (suc n.n) (λ a out. ground (arith, n.outside a, n.short))
          (minus-IsText n sign) (omega (arith, n.short)) (omega (arith, n.short))
          (inr (
            big,
            bytes_at n.out (conv + 1) n.n,
            ap (λ c. c ∷ bytes_at n.out (conv + 1) n.n) sign,
            rw e at (Numeral-IsNumeral n),
          )))

  pub print_signed-Shown :
      (v : ℕ) → v < 2 ^ 32 → Shown conv b (IsSigned v) (print_signed fuel conv v d)
  unfolding print_signed
  print_signed-Shown v h = elim (Bool-cases (leb (2 ^ 31) v)) [
    | inl e ↦
        let big : 2 ^ 31 ≤ v = ground arith in
        rw e (
          minus-Shown v (2 ^ 32 - v) big refl (
            itoa-Numeral (store d.mem conv b'-') (2 ^ 32 - v) (conv + 1) 10 (omega arith)
              (omega arith) (omega arith)))
    | inr e ↦
        let small : v < 2 ^ 31 = ground arith in
        rw e (
          Shown-map (λ cs n. inl (small, n))
            (Numeral-Shown 10 v (itoa-Numeral d.mem v conv 10 (omega arith) (omega arith) h)))
  ]

  -- Zeros up to eight digits in front of the numeral that lies at `conv + 8`.
  padded-Shown :
      (v : ℕ) {result : Option Mem}
      → v < 2 ^ 32
      → (n : Numeral d.mem (conv + 8) v 16 result)
      → Shown conv b
          (IsHex8 v)
          (put_string fuel (conv + n.n) (with_mem (fill_zeros (8 - n.n) n.n conv n.out) d))
  padded-Shown v h n =
      let most = hex_digits_le n h in
      let m = fill_zeros (8 - n.n) n.n conv n.out in
      let filled : (a : ℕ) → m a ≡ (if within (conv + n.n) (8 - n.n) a then b'0' else n.out a) =
        λ a. fill_zeros-filled (8 - n.n) n.n conv a n.out in
      let start : conv + n.n + (8 - n.n) ≡ conv + 8 = omega arith in
      let zeros : (i : ℕ) → i < 8 - n.n → m (conv + n.n + i) ≡ b'0' =
        λ i lt. ground (arith, filled (conv + n.n + i)) in
      let same : (i : ℕ) → m (conv + 8 + i) ≡ n.out (conv + 8 + i) =
        λ i. ground (arith, filled (conv + 8 + i)) in
      let text : IsText m (conv + n.n + (8 - n.n)) n.n = rw start (record {
        ends = same n.n ∙ n.text.ends;
        nonzero = λ i lt. rw (same i) (n.text.nonzero i lt);
      }) in
      let value : value_of m (conv + n.n + (8 - n.n)) 16 n.n ≡ v =
        rw start (value_of-same n.out m (conv + 8) n.n (λ i lt. same i) ∙ n.value) in
      text-Shown (IsHex8 v) m (conv + n.n) 8
        (λ a out. ground (arith, filled a, n.outside a, n.short))
        (padded-IsText m (conv + n.n) (8 - n.n) n.n (omega arith) zeros text) (omega arith)
        (omega arith)
        (rw value at (
          padded-IsHex8 m (conv + n.n) (8 - n.n) n.n (omega arith) zeros text
            (λ i lt. rw (start, same i) (n.digits i lt))))

  pub print_hex_8-Shown : (v : ℕ) → v < 2 ^ 32 → Shown conv b (IsHex8 v) (print_hex_8 fuel conv v d)
  unfolding print_hex_8
  print_hex_8-Shown v h =
      let n = itoa-Numeral d.mem v (conv + 8) 16 (omega arith) (omega arith) h in
      rw
        (
          n.returns,
          print_hex_8,
          strlen_total fuel n.out (conv + 8) n.n n.text (omega (arith, n.short)),
        )
        (padded-Shown v h n)
