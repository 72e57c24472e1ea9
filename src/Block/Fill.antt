-- ===== src/Block/Fill.antt =====
-- The fills of chapOS/student-distrib/lib.c against one assignment to a range.
use chap_os.Common.{
  ℕ, zero, suc, ◌+◌, ◌*◌, ◌/◌, ◌%◌, ◌^◌, ◌<◌, ◌≡◌, refl, fun_ext, ◌∙◌, sym, ap, inl, inr, ◌==◌,
  Bool-cases, arith, Mem, store, filled, filled-zero,
}
use chap_os.Block.{
  store32, rep_stosl, memset_bottom, memset_aligned, memset_top, four_bytes, memset, clear_loop,
  clear_buf,
}

-- A store in front of a filled range lengthens it.
filled-store : (m : Mem) (p n v : ℕ) → filled (store m p v) (p + 1) n v ≡ filled m p (suc n) v
filled-store m p n v = fun_ext λ a. ground arith

filled-store32 :
    (m : Mem) (p n v w : ℕ)
    → v < 256
    → w ≡ four_bytes v
    → filled (store32 m p w) (p + 4) n v ≡ filled m p (4 + n) v
filled-store32 m p n v w h e = fun_ext λ a. ground arith

filled-append : (m : Mem) (p n k v : ℕ) → filled (filled m p n v) (p + n) k v ≡ filled m p (n + k) v
filled-append m p n k v = fun_ext λ a. ground arith

-- The loops of `memset`, from any address, fill what is left of the range.
rep_stosl-filled :
    (n : ℕ) (m : Mem) (p v : ℕ) → v < 256 → rep_stosl n m p (four_bytes v) ≡ filled m p (4 * n) v
unfolding rep_stosl
rep_stosl-filled zero m p v h = sym (filled-zero m p v)
rep_stosl-filled (suc n) m p v h =
    rep_stosl-filled n (store32 m p (four_bytes v)) (p + 4) v h
    ∙ (filled-store32 m p (4 * n) v (four_bytes v) h refl ∙ ap (λ k. filled m p k v) (omega arith))

memset_bottom-filled :
    (n : ℕ) (m : Mem) (p v : ℕ) → v < 256 → memset_bottom n m p (four_bytes v) ≡ filled m p n v
unfolding memset_bottom
memset_bottom-filled zero m p v h = sym (filled-zero m p v)
memset_bottom-filled (suc n) m p v h =
    memset_bottom-filled n (store m p (four_bytes v % 2 ^ 8)) (p + 1) v h
    ∙ (ap (λ b. filled (store m p b) (p + 1) n v) (omega arith) ∙ filled-store m p n v)

memset_aligned-filled :
    (n : ℕ) (m : Mem) (p v : ℕ) → v < 256 → memset_aligned n m p (four_bytes v) ≡ filled m p n v
unfolding memset_aligned
memset_aligned-filled n m p v h = rw (rep_stosl-filled (n / 4) m p v h) (
    memset_bottom-filled (n % 4) (filled m p (4 * (n / 4)) v) (p + 4 * (n / 4)) v h
    ∙ (filled-append m p (4 * (n / 4)) (n % 4) v ∙ ap (λ k. filled m p k v) (omega arith)))

memset_top-filled :
    (n : ℕ) (m : Mem) (p v : ℕ) → v < 256 → memset_top n m p (four_bytes v) ≡ filled m p n v
unfolding memset_top
memset_top-filled zero m p v h = sym (filled-zero m p v)
memset_top-filled (suc n) m p v h = elim (Bool-cases (p % 4 == 0)) [
  | inl e ↦ rw e (memset_aligned-filled (suc n) m p v h)
  | inr e ↦ rw e (
      memset_top-filled n (store m p (four_bytes v % 2 ^ 8)) (p + 1) v h
      ∙ (ap (λ b. filled (store m p b) (p + 1) n v) (omega arith) ∙ filled-store m p n v))
]

-- `memset` sets the `n` bytes from `s` to the low byte of `c`, and no other byte, whatever the
-- alignment of `s`.
memset-filled : (m : Mem) (s c n : ℕ) → memset m s c n ≡ filled m s n (c % 256)
unfolding memset
memset-filled m s c n = memset_top-filled n m s (c % 256) (omega arith)

clear_loop-filled :
    (n : ℕ) (m : Mem) (buf i : ℕ) → clear_loop n m buf i ≡ filled m (buf + 4 * i) (4 * n) 0
unfolding clear_loop
clear_loop-filled zero m buf i = sym (filled-zero m (buf + 4 * i) 0)
clear_loop-filled (suc n) m buf i =
    clear_loop-filled n (store32 m (buf + 4 * i) 0) buf (i + 1)
    ∙ (ap (λ a. filled (store32 m (buf + 4 * i) 0) a (4 * n) 0) (omega arith)
        ∙ (filled-store32 m (buf + 4 * i) (4 * n) 0 0 (omega arith) refl
            ∙ ap (λ k. filled m (buf + 4 * i) k 0) (omega arith)))

-- `clear_buf` zeroes four bytes for each unit of `length`: a buffer of `len` bytes is overrun by
-- three times its length.
pub clear_buf-filled : (m : Mem) (buf len : ℕ) → clear_buf m buf len ≡ filled m buf (4 * len) 0
unfolding clear_buf
clear_buf-filled m buf len =
    clear_loop-filled len m buf 0 ∙ ap (λ a. filled m a (4 * len) 0) (omega arith)
