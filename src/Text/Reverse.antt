-- ===== src/Text/Reverse.antt =====
-- `strrev` reverses a text in place.
use chap_os.Common.{
  ℕ, zero, suc, ◌+◌, ◌-◌, ◌≤◌, ◌<◌, ◌≡◌, some, arith, inl, inr, Bool-cases, ◌∙◌, ap, fun_ext, ltb,
  leb, ◌&&◌, if◌then◌else◌, Mem, store, within,
}
use chap_os.Text.{strrev_loop, strrev}
use chap_os.Text.Length.{IsText, strlen_total}

-- The bytes from address `lo` to address `hi`, both included, in the other order.
abbrev reversed : Mem → ℕ → ℕ → Mem
reversed m lo hi a = if leb lo a && leb a hi then m (lo + hi - a) else m a

reversed-trivial : (m : Mem) (lo hi : ℕ) → hi ≤ lo → m ≡ reversed m lo hi
reversed-trivial m lo hi h = fun_ext λ a. ground arith

reversed-swap :
    (m : Mem) (lo hi : ℕ)
    → lo < hi
    → reversed (store (store m hi (m lo)) lo (m hi)) (lo + 1) (hi - 1) ≡ reversed m lo hi
reversed-swap m lo hi h = fun_ext λ a. ground arith

strrev_loop-reversed :
    (fuel : ℕ) (m : Mem) (s beg end : ℕ)
    → end ≤ beg + fuel
    → strrev_loop fuel m s beg end ≡ reversed m (s + beg) (s + end)
unfolding strrev_loop
strrev_loop-reversed zero m s beg end h = reversed-trivial m (s + beg) (s + end) (omega arith)
strrev_loop-reversed (suc fuel) m s beg end h = elim (Bool-cases (ltb beg end)) [
  | inl e ↦
      let lo : s + (beg + 1) ≡ s + beg + 1 = omega arith in
      let hi : s + (end - 1) ≡ s + end - 1 = ground arith in
      rw e (
        strrev_loop-reversed fuel _ s (beg + 1) (end - 1) (ground arith)
        ∙ rw (lo, hi) (reversed-swap m (s + beg) (s + end) (ground arith)))
  | inr e ↦ rw e (reversed-trivial m (s + beg) (s + end) (ground arith))
]

-- The `n` bytes from `s` in the other order.
abbrev pub reversed_text : Mem → ℕ → ℕ → Mem
reversed_text m s n a = if within s n a then m (s + (n - 1 - (a - s))) else m a

-- On a terminated text of `n` bytes, with fuel for one byte more, `strrev` puts the bytes of the
-- text in the other order and changes no byte outside it.
pub strrev-reversed :
    (fuel : ℕ) (m : Mem) (s n : ℕ)
    → IsText m s n
    → n < fuel
    → strrev fuel m s ≡ some (reversed_text m s n)
unfolding strrev
strrev-reversed fuel m s n t h =
    rw (strlen_total fuel m s n t h, strrev)
      (ap some (strrev_loop-reversed n m s 0 (n - 1) (omega arith) ∙ fun_ext λ a. ground arith))
