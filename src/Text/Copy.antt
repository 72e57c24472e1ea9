-- ===== src/Text/Copy.antt =====
-- `strcpy` and `strncpy`, byte by byte.
use chap_os.Common.{
  ℕ, zero, suc, ◌+◌, ◌-◌, ◌≤◌, ◌<◌, ◌≡◌, ◌≢◌, ◌⊎◌, ◌==◌, some, false, arith, inl, inr, Bool-cases,
  refl, sym, ◌∙◌, ap, fun_ext, if◌then◌else◌, Mem, store, within, copied, copied-zero, filled,
  filled-zero,
}
use mathlib.Core.Path.{subst}
use native.Mathlib.Nat.{add-zero}
use chap_os.Text.{strcpy_from, strcpy, strncpy_copy, strncpy_pad, strncpy}
use chap_os.Text.Length.{IsText}

-- A byte that a copy upwards has yet to read is the old one.
copied-source : (m : Mem) (d s i : ℕ) → (d ≤ s) ⊎ (s + i < d) → copied m d s i (s + i) ≡ m (s + i)
copied-source m d s i h = ground arith

copied-end :
    (m : Mem) (d s n : ℕ)
    → m (s + n) ≡ 0
    → (d ≤ s) ⊎ (s + n < d)
    → store (copied m d s n) (d + n) 0 ≡ copied m d s (suc n)
copied-end m d s n z h = fun_ext λ a. ground arith

copied-next :
    (m : Mem) (d s i : ℕ)
    → (d ≤ s) ⊎ (s + i < d)
    → store (copied m d s i) (d + i) (m (s + i)) ≡ copied m d s (i + 1)
copied-next m d s i h = fun_ext λ a. ground arith

strcpy_from-copied :
    (left fuel : ℕ) (m : Mem) (d s n i : ℕ)
    → IsText m s n
    → (d ≤ s) ⊎ (s + n < d)
    → i + left ≡ n
    → left < fuel
    → strcpy_from fuel (copied m d s i) d s i ≡ some (copied m d s (suc n))
unfolding strcpy_from
strcpy_from-copied left zero m d s n i t a e h = absurd (omega arith)
strcpy_from-copied zero (suc fuel) m d s n i t a e h =
    let same : i ≡ n = omega arith in
    rw (same, copied-source m d s n a, t.ends) (ap some (copied-end m d s n t.ends a))
strcpy_from-copied (suc left) (suc fuel) m d s n i t a e h =
    let apart : (d ≤ s) ⊎ (s + i < d) = omega arith in
    let more : (m (s + i) == 0) ≡ false = ground (arith, t.nonzero i) in
    rw (copied-source m d s i apart, more, copied-next m d s i apart)
      (strcpy_from-copied left fuel m d s n (i + 1) t a (omega arith) (omega arith))

-- With fuel for the text and its end, `strcpy` copies the text at `src` with its zero byte to
-- `dest` and changes no other byte, when `dest` is not above `src` or lies past the end.
pub strcpy-copied :
    (fuel : ℕ) (m : Mem) (dest src n : ℕ)
    → IsText m src n
    → (dest ≤ src) ⊎ (src + n < dest)
    → n < fuel
    → strcpy fuel m dest src ≡ some (copied m dest src (suc n))
unfolding strcpy
strcpy-copied fuel m d s n t a h =
    subst (λ k. strcpy_from fuel k d s 0 ≡ some (copied m d s (suc n))) (copied-zero m d s)
      (strcpy_from-copied n fuel m d s n 0 t a (omega arith) h)

-- Byte `k` of the text at `s`, with zero bytes for ever after its end.
unfoldable pub padded : Mem → ℕ → ℕ → ℕ
padded m s zero = m s
padded m s (suc k) = if m s == 0 then 0 else padded m (s + 1) k

pub padded-ended : (m : Mem) (s k : ℕ) → m s ≡ 0 → padded m s k ≡ 0
unfolding padded
padded-ended m s zero h = h
padded-ended m s (suc k) h = ground arith

pub padded-store :
    (m : Mem) (p v s k : ℕ) → (p < s) ⊎ (s + k < p) → padded (store m p v) s k ≡ padded m s k
unfolding padded
padded-store m p v s zero h = ground arith
padded-store m p v s (suc k) h = ground (arith, padded-store m p v (s + 1) k)

strncpy_pad-filled :
    (left : ℕ) (m : Mem) (d i : ℕ) → strncpy_pad left m d i ≡ filled m (d + i) left 0
unfolding strncpy_pad
strncpy_pad-filled zero m d i = sym (filled-zero m (d + i) 0)
strncpy_pad-filled (suc left) m d i =
    strncpy_pad-filled left (store m (d + i) 0) d (i + 1) ∙ fun_ext λ a. ground arith

abbrev padded_copy : Mem → ℕ → ℕ → ℕ → Mem
padded_copy m d s n a = if within d n a then padded m s (a - d) else m a

abbrev finish : ℕ → ℕ → Mem × ℕ → Mem
finish end d (m, j) = strncpy_pad (end - j) m d j

padded-step : (m : Mem) (s k j : ℕ) → k ≡ suc j → m s ≢ 0 → padded m s k ≡ padded m (s + 1) j
unfolding padded
padded-step m s k j e h = rw e (ground arith)

padded-zero : (m : Mem) (s : ℕ) → padded m s 0 ≡ m s
unfolding padded
padded-zero m s = refl

padded_copy-store :
    (m : Mem) (d s n : ℕ)
    → m s ≢ 0
    → (d ≤ s) ⊎ (s + suc n ≤ d)
    → padded_copy (store m d (m s)) (d + 1) (s + 1) n ≡ padded_copy m d s (suc n)
padded_copy-store m d s n z h = fun_ext λ a. ground (
  arith,
  padded-store m d (m s) (s + 1) (a - (d + 1)),
  padded-step m s (a - d) (a - (d + 1)),
  padded-zero m s,
)

padded_copy-ended : (m : Mem) (d s n : ℕ) → m s ≡ 0 → filled m d n 0 ≡ padded_copy m d s n
padded_copy-ended m d s n z = fun_ext λ a. ground (arith, padded-ended m s (a - d))

strncpy_copy-finish :
    (left : ℕ) (m : Mem) (d s i end : ℕ)
    → end ≡ i + left
    → (d ≤ s) ⊎ (s + end ≤ d)
    → finish end d (strncpy_copy left m d s i) ≡ padded_copy m (d + i) (s + i) left
unfolding strncpy_copy
strncpy_copy-finish zero m d s i end e h =
    let none_left : end - i ≡ 0 = omega arith in
    rw (none_left, strncpy_pad-filled 0 m d i) (fun_ext λ a. ground arith)
strncpy_copy-finish (suc left) m d s i end e h = elim (Bool-cases (m (s + i) == 0)) [
  | inl z ↦
      let left_over : end - i ≡ suc left = omega arith in
      rw (z, left_over)
        (strncpy_pad-filled (suc left) m d i
          ∙ padded_copy-ended m (d + i) (s + i) (suc left) (ground arith))
  | inr z ↦
      let d' : d + (i + 1) ≡ d + i + 1 = omega arith in
      let s' : s + (i + 1) ≡ s + i + 1 = omega arith in
      rw z (
        strncpy_copy-finish left (store m (d + i) (m (s + i))) d s (i + 1) end (omega arith) h
        ∙ rw (d', s') (padded_copy-store m (d + i) (s + i) left (ground arith) (omega arith)))
]

-- `strncpy` writes the first `n` bytes of the zero-padded text at `src` to `dest` and changes no
-- other byte, when `dest` is not above `src` or the `n` bytes at `src` end before it.
pub strncpy-padded :
    (m : Mem) (dest src n a : ℕ)
    → (dest ≤ src) ⊎ (src + n ≤ dest)
    → strncpy m dest src n a ≡ (if within dest n a then padded m src (a - dest) else m a)
unfolding strncpy
strncpy-padded m d s n a h =
    let whole : finish n d (strncpy_copy n m d s 0) ≡ padded_copy m (d + 0) (s + 0) n =
      strncpy_copy-finish n m d s 0 n (omega arith) h in
    ap (λ f. f a) (rw (add-zero d, add-zero s) at whole)
