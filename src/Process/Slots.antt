-- ===== src/Process/Slots.antt =====
-- Process numbers, and the block that a started process gets.
use chap_os.Common.{
  ℕ, zero, suc, ◌+◌, ◌-◌, ◌*◌, ◌≤◌, ◌<◌, ◌≡◌, ◌≢◌, refl, inl, inr, arith, Bool-cases, true, false,
  ◌==◌, store, pos, minus_one,
}
use chap_os.Process.{Kernel, find_proc_id, gen_new_proc_id}
use chap_os.Process.Launch.{Frame, fill_pcb, slot_of}

find_proc_id-lowest :
    (left i n : ℕ) (k : Kernel)
    → i ≤ n
    → n < i + left
    → k.proc_id_flags n ≡ 0
    → ((j : ℕ) → j < n → k.proc_id_flags j ≢ 0)
    → find_proc_id left i k ≡ (pos n, record k { proc_id_flags = store k.proc_id_flags n 1 })
unfolding find_proc_id
find_proc_id-lowest zero i n k le lt free taken = absurd (omega arith)
find_proc_id-lowest (suc left) i n k le lt free taken = elim (Bool-cases (i == n)) [
  | inl e ↦
      let same : i ≡ n = ground arith in
      let here : (k.proc_id_flags n == 0) ≡ true = ground arith in rw (same, here) refl
  | inr e ↦
      let there : (k.proc_id_flags i == 0) ≡ false = ground (arith, taken i) in
      rw there (find_proc_id-lowest left (i + 1) n k (ground arith) (omega arith) free taken)
]

find_proc_id-none :
    (left i : ℕ) (k : Kernel)
    → ((j : ℕ) → j < i + left → k.proc_id_flags j ≢ 0)
    → find_proc_id left i k ≡ (minus_one, k)
unfolding find_proc_id
find_proc_id-none zero i k taken = refl
find_proc_id-none (suc left) i k taken =
    let there : (k.proc_id_flags i == 0) ≡ false = ground (arith, taken i) in
    rw there (find_proc_id-none left (i + 1) k (λ j lt. taken j (omega arith)))

-- `gen_new_proc_id` hands out the lowest of the six process numbers that is not in use, and marks
-- it as used; nothing else changes.
gen_new_proc_id-lowest :
    (n : ℕ) (k : Kernel)
    → n < 6
    → k.proc_id_flags n ≡ 0
    → ((j : ℕ) → j < n → k.proc_id_flags j ≢ 0)
    → gen_new_proc_id k ≡ (pos n, record k { proc_id_flags = store k.proc_id_flags n 1 })
unfolding gen_new_proc_id
gen_new_proc_id-lowest n k lt free taken = find_proc_id-lowest 6 0 n k (omega arith) lt free taken

-- With all six process numbers in use it returns -1 and changes nothing.
pub gen_new_proc_id-none :
    (k : Kernel) → ((j : ℕ) → j < 6 → k.proc_id_flags j ≢ 0) → gen_new_proc_id k ≡ (minus_one, k)
unfolding gen_new_proc_id
gen_new_proc_id-none k taken = find_proc_id-none 6 0 k taken

-- The parent that a process with a number above 0 gets is the process of the block before its own,
-- whichever process is active: with block numbers in place this is the process numbered one less.
-- The kernel stack that its system calls will run on is that of its own block.
fill_pcb-parent :
    (f : Frame) (id caller : ℕ) (k : Kernel)
    → 0 < id
    → id < 6
    → (k.pcbs (id - 1)).proc_num ≡ id - 1
    → let k' = fill_pcb f id (record k { active_proc_num = caller }) in
      ((k'.pcbs id).parent_proc_num ≡ id - 1)
      × ((k'.pcbs id).proc_num ≡ id)
      × (k'.active_proc_num ≡ id)
      × (slot_of (0x800000 - 0x2000 * id - 4) ≡ id)
unfolding fill_pcb
fill_pcb-parent f id caller k above below number = ground arith
