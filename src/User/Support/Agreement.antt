-- ===== src/User/Support/Agreement.antt =====
-- The support library against the kernel's own string routines, and comparison against texts.
use chap_os.Common.{
  ℕ, zero, suc, ◌+◌, ◌-◌, ◌/◌, ◌%◌, ◌<◌, ◌≡◌, ◌↔◌, refl, arith, Option, none, some, ◌==◌, ltb,
  false, Bool-cases, inl, inr, if◌then◌else◌, Mem, store, pos,
}
use native.Mathlib.Nat.{add-zero}
use chap_os.Text.{
  strlen_from, strlen, strcpy_from, strcpy, strrev_loop, strrev, itoa_digits, itoa, lookup_digit,
}
use chap_os.Text.Compare.{Agree, Agree-head, Agree-suc, Agree-cons, Agree-ended}
use chap_os.User.Support.{
  count_bytes, ece391_strlen, ece391_strcpy, compare_bytes, ece391_strncmp, swap_ends,
  ece391_strrev, digit_loop, ece391_itoa,
}

count_bytes-strlen_from :
    (fuel : ℕ) (m : Mem) (s len : ℕ) → count_bytes fuel m (s + len) len ≡ strlen_from fuel m s len
unfolding count_bytes strlen_from
count_bytes-strlen_from zero m s len = refl
count_bytes-strlen_from (suc fuel) m s len =
    let next : s + len + 1 ≡ s + (len + 1) = omega arith in
    rw (next, count_bytes-strlen_from fuel m s (len + 1)) refl

strcpy-strcpy_from :
    (fuel : ℕ) (m : Mem) (d s i : ℕ)
    → ece391_strcpy fuel m (d + i) (s + i) ≡ strcpy_from fuel m d s i
unfolding ece391_strcpy strcpy_from
strcpy-strcpy_from zero m d s i = refl
strcpy-strcpy_from (suc fuel) m d s i =
    let next_d : d + i + 1 ≡ d + (i + 1) = omega arith in
    let next_s : s + i + 1 ≡ s + (i + 1) = omega arith in
    rw (next_d, next_s, strcpy-strcpy_from fuel (store m (d + i) (m (s + i))) d s (i + 1))
      (elim (Bool-cases (m (s + i) == 0)) [
        | inl e ↦ let z : m (s + i) ≡ 0 = ground arith in rw (e, z) refl
        | inr e ↦ rw e refl
      ])

swap_ends-strrev_loop :
    (fuel : ℕ) (m : Mem) (s beg end : ℕ) → swap_ends fuel m s beg end ≡ strrev_loop fuel m s beg end
unfolding swap_ends strrev_loop
swap_ends-strrev_loop zero m s beg end = refl
swap_ends-strrev_loop (suc fuel) m s beg end =
    rw
      (swap_ends-strrev_loop fuel (store (store m (s + end) (m (s + beg))) (s + beg) (m (s + end)))
        s (beg + 1) (end - 1))
      refl

digit_loop-itoa_digits :
    (fuel : ℕ) (m : Mem) (p v radix : ℕ)
    → digit_loop fuel m p v radix ≡ itoa_digits fuel m p v radix
unfolding digit_loop itoa_digits
digit_loop-itoa_digits zero m p v radix = refl
digit_loop-itoa_digits (suc fuel) m p v radix =
    rw
      (digit_loop-itoa_digits fuel (store m p (lookup_digit (v % radix))) (p + 1) (v / radix) radix)
      refl

strlen-agrees : (fuel : ℕ) (m : Mem) (s : ℕ) → ece391_strlen fuel m s ≡ strlen fuel m s
unfolding ece391_strlen strlen
strlen-agrees fuel m s = rw (add-zero s) at (count_bytes-strlen_from fuel m s 0)

-- On a text of at most one byte the kernel's loop does nothing.
strrev_loop-short : (len : ℕ) (m : Mem) (s : ℕ) → len < 2 → strrev_loop len m s 0 (len - 1) ≡ m
unfolding strrev_loop
strrev_loop-short zero m s h = refl
strrev_loop-short (suc zero) m s h = refl
strrev_loop-short (suc (suc n)) m s h = absurd (omega arith)

strrev-agrees : (fuel : ℕ) (m : Mem) (s : ℕ) → ece391_strrev fuel m s ≡ strrev fuel m s
unfolding ece391_strrev strrev
strrev-agrees fuel m s = rw (ece391_strrev, strlen-agrees fuel m s) (by_length (strlen fuel m s))
  where
    by_length :
        (r : Option ℕ)
        → ◌≡◌ {A = Option Mem}
            (elim r [
              | none ↦ none
              | some len ↦ if ltb len 2 then some m else some (swap_ends len m s 0 (len - 1))
            ])
            (elim r [ none ↦ none | some len ↦ some (strrev_loop len m s 0 (len - 1)) ])
    by_length none = refl
    by_length (some len) = elim (Bool-cases (ltb len 2)) [
      | inl e ↦ rw (e, strrev_loop-short len m s (ground arith)) refl
      | inr e ↦ rw (e, swap_ends-strrev_loop len m s 0 (len - 1)) refl
    ]

itoa-agrees : (m : Mem) (v buf radix : ℕ) → ece391_itoa m v buf radix ≡ itoa m v buf radix
unfolding ece391_itoa itoa
itoa-agrees m v buf radix =
    rw (ece391_itoa, digit_loop-itoa_digits 32 m buf v radix)
      (by_digits (itoa_digits 32 m buf v radix))
  where
    by_digits :
        (r : Option (Mem × ℕ))
        → ◌≡◌ {A = Option Mem}
            (if v == 0
              then some (store (store m buf b'0') (buf + 1) 0)
              else elim r [ none ↦ none | some (m', p) ↦ ece391_strrev 33 (store m' p 0) buf ])
            (if v == 0
              then some (store (store m buf b'0') (buf + 1) 0)
              else elim r [ none ↦ none | some (m', p) ↦ strrev 33 (store m' p 0) buf ])
    by_digits none = refl
    by_digits (some (m', p)) = rw (strrev-agrees 33 (store m' p 0) buf) refl

-- The programs' `strlen`, `strcpy` and `itoa` return on every memory what the kernel's return, and
-- leave the same memory, with the same fuel; so do their `strrev`s.
pub support_agrees :
    (fuel : ℕ) (m : Mem) (dst src v radix : ℕ)
    → (ece391_strlen fuel m src ≡ strlen fuel m src)
      × (ece391_strcpy fuel m dst src ≡ strcpy fuel m dst src)
      × (ece391_strrev fuel m src ≡ strrev fuel m src)
      × (ece391_itoa m v dst radix ≡ itoa m v dst radix)
unfolding strcpy
support_agrees fuel m dst src v radix = (
  strlen-agrees fuel m src,
  rw (add-zero dst, add-zero src) at (strcpy-strcpy_from fuel m dst src 0),
  strrev-agrees fuel m src,
  itoa-agrees m v dst radix,
)

-- The loop of `ece391_strncmp` on texts that agree, and on others.
compare_bytes-Agree : (n : ℕ) (m : Mem) (s t : ℕ) → (compare_bytes n m s t ≡ pos 0) ↔ Agree m s t n
unfolding compare_bytes
compare_bytes-Agree zero m s t = (λ _ k lt. absurd (omega arith), λ _. refl)
compare_bytes-Agree (suc n) m s t =
    let ih : (compare_bytes n m (s + 1) (t + 1) ≡ pos 0) ↔ Agree m (s + 1) (t + 1) n =
      compare_bytes-Agree n m (s + 1) (t + 1) in
    elim (Bool-cases (m s == m t)) [
      | inl e ↦ elim (Bool-cases (m s == 0)) [
        | inl z ↦
            rw (e, z) (λ _. Agree-ended m s t (suc n) (ground arith) (ground arith), λ _. refl)
        | inr z ↦ elim (Bool-cases (n == 0)) [
          | inl last ↦
              rw (e, z, last)
                (λ _. Agree-cons m s t n (ground arith) (λ k lt. ground arith), λ _. refl)
          | inr more ↦
              rw (e, z, more)
                (
                  λ h. Agree-cons m s t n (ground arith) (ih.0 h),
                  λ ag. ih.1 (Agree-suc m s t n ag (ground arith)).1,
                )
        ]
      ]
      | inr ne ↦
          rw ne (λ h. absurd (ground arith), λ ag. absurd (ground (arith, Agree-head m s t n ag)))
    ]

-- The programs' `strncmp` returns 0 exactly when the first `n` bytes of the two texts, padded with
-- zeros after their ends, are the same.
ece391_strncmp-Agree :
    (m : Mem) (s1 s2 n : ℕ) → (ece391_strncmp m s1 s2 n ≡ pos 0) ↔ Agree m s1 s2 n
unfolding ece391_strncmp
ece391_strncmp-Agree m s t zero = (λ _ k lt. absurd (omega arith), λ _. refl)
ece391_strncmp-Agree m s t (suc n) =
    let more : (suc n == 0) ≡ false = ground arith in rw more (compare_bytes-Agree (suc n) m s t)
