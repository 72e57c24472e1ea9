-- ===== src/Process/Dispatch.antt =====
-- The guards of `read`, `write` and `close`.
use chap_os.FileSys.{stdin_ops, stdout_ops}
use chap_os.Common.{
  Bool-cases, inl, inr, ◌==◌, ℕ, ◌≤◌, ◌≡◌, ◌≢◌, refl, arith, List, Bool, some, ℤ, pos, negsuc,
  minus_one,
}
use chap_os.Pic.{Devices}
use chap_os.Paging.{Layout}
use chap_os.Process.{Kernel, desc_of}
use chap_os.Process.Files.{read, read_ops, write, write_ops, close}

-- A number that names no descriptor in use: negative, 8 or more, or not active.
pub data Unusable (k : Kernel) : ℤ → Type 0 where
  negative : (n : ℕ) → Unusable k (negsuc n)
  past_end : (fd : ℕ) → 8 ≤ fd → Unusable k (pos fd)
  inactive : (fd : ℕ) → (desc_of fd k).flags ≢ 1 → Unusable k (pos fd)

-- On a number that names no descriptor in use, `read`, `write` and `close` all return -1 and change
-- nothing, and `read` does so without waiting.
pub calls-Unusable :
    (devices : Devices) (uninit : ℕ) (l : Layout) (events : List Bool) (keys : List ℕ)
    (local buf : ℕ) (fd nbytes : ℤ) (k : Kernel)
    → Unusable k fd
    → (read l events keys local fd buf nbytes k ≡ some (minus_one, k))
      × (write devices uninit fd buf nbytes k ≡ (minus_one, k))
      × (close devices uninit fd k ≡ (minus_one, k))
unfolding read write close
calls-Unusable devices uninit l events keys local buf fd nbytes k (negative n) = (refl, refl, refl)
calls-Unusable devices uninit l events keys local buf fd nbytes k (past_end n h) = ground arith
calls-Unusable devices uninit l events keys local buf fd nbytes k (inactive n h) = ground arith

-- The keyboard's descriptor cannot be written, wherever the buffer is.
pub write-stdin :
    (devices : Devices) (uninit buf : ℕ) (nbytes : ℤ) (k : Kernel)
    → (desc_of 0 k).flags ≡ 1
    → (desc_of 0 k).fops_jmp_tb_ptr ≡ stdin_ops
    → write devices uninit (pos 0) buf nbytes k ≡ (minus_one, k)
unfolding write write_ops
write-stdin devices uninit buf nbytes k active ops = elim (Bool-cases (buf == 0)) [
  | inl e ↦ rw e refl
  | inr e ↦ rw (e, active, ops) refl
]

-- The screen's descriptor cannot be read.
pub read-stdout :
    (l : Layout) (events : List Bool) (keys : List ℕ) (local buf : ℕ) (nbytes : ℤ) (k : Kernel)
    → (desc_of 1 k).flags ≡ 1
    → (desc_of 1 k).fops_jmp_tb_ptr ≡ stdout_ops
    → read l events keys local (pos 1) buf nbytes k ≡ some (minus_one, k)
unfolding read read_ops
read-stdout l events keys local buf nbytes k active ops = elim (Bool-cases (buf == 0)) [
  | inl e ↦ rw e refl
  | inr e ↦ rw (e, active, ops) refl
]
