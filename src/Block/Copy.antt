-- ===== src/Block/Copy.antt =====
-- The copies of chapOS/student-distrib/lib.c against one simultaneous assignment.
use chap_os.Common.{
  ℕ, zero, suc, ◌+◌, ◌-◌, ◌*◌, ◌/◌, ◌%◌, ◌≤◌, ◌≡◌, ◌⊎◌, inl, inr, sym, fun_ext, ◌∙◌, ap, arith, ltb,
  leb, ◌==◌, Bool-cases, Mem, store, copied, copied-zero,
}
use chap_os.Block.{
  move32, rep_movsl, memcpy_bottom, memcpy_aligned, memcpy_top, memcpy, rep_movsb_up,
  rep_movsb_down, memmove,
}

-- A copy upwards reads each byte before it is overwritten.
abbrev pub Upwards : ℕ → ℕ → ℕ → Type 0
Upwards d s n = (d ≤ s) ⊎ (s + n ≤ d)

-- A byte copied first, in front of the rest.
copied-store :
    (m : Mem) (d s n : ℕ)
    → Upwards d s (suc n)
    → copied (store m d (m s)) (d + 1) (s + 1) n ≡ copied m d s (suc n)
copied-store m d s n h = fun_ext λ a. ground arith

copied-move32 :
    (m : Mem) (d s n : ℕ)
    → Upwards d s (4 + n)
    → copied (move32 m d s) (d + 4) (s + 4) n ≡ copied m d s (4 + n)
copied-move32 m d s n h = fun_ext λ a. ground arith

copied-append :
    (m : Mem) (d s n k : ℕ)
    → Upwards d s (n + k)
    → copied (copied m d s n) (d + n) (s + n) k ≡ copied m d s (n + k)
copied-append m d s n k h = fun_ext λ a. ground arith

rep_movsl-copied :
    (n : ℕ) (m : Mem) (d s : ℕ) → Upwards d s (4 * n) → rep_movsl n m d s ≡ copied m d s (4 * n)
unfolding rep_movsl
rep_movsl-copied zero m d s h = sym (copied-zero m d s)
rep_movsl-copied (suc n) m d s h =
    rep_movsl-copied n (move32 m d s) (d + 4) (s + 4) (omega arith)
    ∙ (copied-move32 m d s (4 * n) (omega arith) ∙ ap (λ k. copied m d s k) (omega arith))

memcpy_bottom-copied :
    (n : ℕ) (m : Mem) (d s : ℕ) → Upwards d s n → memcpy_bottom n m d s ≡ copied m d s n
unfolding memcpy_bottom
memcpy_bottom-copied zero m d s h = sym (copied-zero m d s)
memcpy_bottom-copied (suc n) m d s h =
    memcpy_bottom-copied n (store m d (m s)) (d + 1) (s + 1) (omega arith) ∙ copied-store m d s n h

memcpy_aligned-copied :
    (n : ℕ) (m : Mem) (d s : ℕ) → Upwards d s n → memcpy_aligned n m d s ≡ copied m d s n
unfolding memcpy_aligned
memcpy_aligned-copied n m d s h = rw (rep_movsl-copied (n / 4) m d s (omega arith)) (
    memcpy_bottom-copied (n % 4) (copied m d s words) (d + words) (s + words) (omega arith)
    ∙ (copied-append m d s words (n % 4) (omega arith) ∙ ap (λ k. copied m d s k) (omega arith)))
  where
    words : ℕ
    words = 4 * (n / 4)

memcpy_top-copied :
    (n : ℕ) (m : Mem) (d s : ℕ) → Upwards d s n → memcpy_top n m d s ≡ copied m d s n
unfolding memcpy_top
memcpy_top-copied zero m d s h = sym (copied-zero m d s)
memcpy_top-copied (suc n) m d s h = elim (Bool-cases (d % 4 == 0)) [
  | inl e ↦ rw e (memcpy_aligned-copied (suc n) m d s h)
  | inr e ↦
      rw e (
        memcpy_top-copied n (store m d (m s)) (d + 1) (s + 1) (omega arith)
        ∙ copied-store m d s n h)
]

-- `memcpy` copies the `n` old bytes at `src` to `dest` and changes no other byte, whatever the
-- alignment, when the ranges do not overlap or `dest` is not above `src`.
pub memcpy-copied :
    (m : Mem) (dest src n : ℕ) → Upwards dest src n → memcpy m dest src n ≡ copied m dest src n
unfolding memcpy
memcpy-copied m dest src n h = memcpy_top-copied n m dest src h

rep_movsb_up-copied :
    (n : ℕ) (m : Mem) (d s : ℕ) → Upwards d s n → rep_movsb_up n m d s ≡ copied m d s n
unfolding rep_movsb_up
rep_movsb_up-copied zero m d s h = sym (copied-zero m d s)
rep_movsb_up-copied (suc n) m d s h =
    rep_movsb_up-copied n (store m d (m s)) (d + 1) (s + 1) (omega arith) ∙ copied-store m d s n h

-- A byte copied first, behind the rest.
copied-store_last :
    (m : Mem) (d s n : ℕ)
    → s ≤ d
    → copied (store m (d + n) (m (s + n))) d s n ≡ copied m d s (suc n)
copied-store_last m d s n h = fun_ext λ a. ground arith

rep_movsb_down-copied :
    (n : ℕ) (m : Mem) (d s : ℕ)
    → s ≤ d
    → rep_movsb_down n m (d + n - 1) (s + n - 1) ≡ copied m d s n
unfolding rep_movsb_down
rep_movsb_down-copied zero m d s h = sym (copied-zero m d s)
rep_movsb_down-copied (suc n) m d s h =
    let ed : d + suc n - 1 ≡ d + n = omega arith in
    let es : s + suc n - 1 ≡ s + n = omega arith in
    rw (ed, es)
      (rep_movsb_down-copied n (store m (d + n) (m (s + n))) d s h ∙ copied-store_last m d s n h)

-- `memmove` copies the `n` old bytes at `src` to `dest` and changes no other byte, however the
-- ranges overlap; it returns with the direction flag set exactly when `src` is below `dest`.
pub memmove-copied :
    (m : Mem) (dest src n : ℕ) → memmove m dest src n ≡ (copied m dest src n, ltb src dest)
unfolding memmove
memmove-copied m dest src n = elim (Bool-cases (leb dest src)) [
  | inl e ↦ rw e (ground (arith, rep_movsb_up-copied n m dest src))
  | inr e ↦ rw e (ground (arith, rep_movsb_down-copied n m dest src))
]
