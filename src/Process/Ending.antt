-- ===== src/Process/Ending.antt =====
-- `halt`: the descriptors, the process number and the mapping that it leaves.
use chap_os.Common.{
  ℕ, zero, suc, ◌+◌, ◌≤◌, ◌<◌, ◌≡◌, ◌≢◌, ◌⊎◌, refl, sym, ap, ◌∙◌, inl, inr, arith, Bool-cases, true,
  false, ◌&&◌, leb, ◌==◌, if◌then◌else◌, pos, store,
}
use chap_os.Pic.{Devices, cli}
use chap_os.FileSys.{
  FileOps, FileDesc, no_file_ops, rtc_ops, file_ops, dir_ops, stdin_ops, stdout_ops,
}
use chap_os.Process.{Kernel, desc_of, put_desc, on_io}
use chap_os.Process.Files.{close, close_ops}
use chap_os.Process.Launch.{close_all, halt, execute_shell}
use chap_os.Process.Closing.{close-run}
use chap_os.Process.Descriptors.{desc_of-put_desc_self, desc_of-put_desc_ne}

-- The drivers' closing functions leave the process table alone.
close_ops-pcbs :
    (devices : Devices) (uninit : ℕ) (o : FileOps) (fd : ℕ) (k : Kernel)
    → ((close_ops devices uninit o fd k).1.pcbs ≡ k.pcbs)
      × ((close_ops devices uninit o fd k).1.stack_slot ≡ k.stack_slot)
      × ((close_ops devices uninit o fd k).1.proc_id_flags ≡ k.proc_id_flags)
unfolding close_ops
close_ops-pcbs devices uninit rtc_ops fd k = (refl, refl, refl)
close_ops-pcbs devices uninit file_ops fd k = (refl, refl, refl)
close_ops-pcbs devices uninit dir_ops fd k = (refl, refl, refl)
close_ops-pcbs devices uninit stdin_ops fd k = (refl, refl, refl)
close_ops-pcbs devices uninit stdout_ops fd k = (refl, refl, refl)
close_ops-pcbs devices uninit no_file_ops fd k = (refl, refl, refl)

close_ops-desc_of :
    (devices : Devices) (uninit : ℕ) (o : FileOps) (fd j : ℕ) (k : Kernel)
    → desc_of j (close_ops devices uninit o fd k).1 ≡ desc_of j k
unfolding close_ops
close_ops-desc_of devices uninit rtc_ops fd j k = refl
close_ops-desc_of devices uninit file_ops fd j k = refl
close_ops-desc_of devices uninit dir_ops fd j k = refl
close_ops-desc_of devices uninit stdin_ops fd j k = refl
close_ops-desc_of devices uninit stdout_ops fd j k = refl
close_ops-desc_of devices uninit no_file_ops fd j k = refl

-- A descriptor after `halt`: it has the table that does nothing, and from 2 on it is not active.
abbrev pub ended : ℕ → FileDesc → FileDesc
ended j v = record v {
  fops_jmp_tb_ptr = no_file_ops;
  flags = if leb 2 j && v.flags == 1 then 0 else v.flags;
}

-- The body of the closing loop, on descriptor `i`.
abbrev pub close_one : Devices → ℕ → ℕ → Kernel → Kernel
close_one devices uninit i k =
    if (desc_of i k).flags == 1 then (close devices uninit (pos i) k).1 else k

pub close_one-kept :
    (devices : Devices) (uninit i : ℕ) (k : Kernel)
    → (leb 2 i && (desc_of i k).flags == 1) ≡ false
    → close_one devices uninit i k ≡ k
unfolding close
close_one-kept devices uninit i k h = ground arith

pub close_one-closed :
    (devices : Devices) (uninit i : ℕ) (k : Kernel)
    → i < 8
    → (leb 2 i && (desc_of i k).flags == 1) ≡ true
    → close_one devices uninit i k
      ≡ (close_ops devices uninit
          (desc_of i k).fops_jmp_tb_ptr
          i
          (put_desc i (record (desc_of i k) { flags = 0 }) k)).1
close_one-closed devices uninit i k lt h =
    let active : ((desc_of i k).flags == 1) ≡ true = ground arith in
    rw active (ap (λ r. r.1) (close-run devices uninit i k (ground arith) lt (ground arith)))

close_one_self :
    (devices : Devices) (uninit i : ℕ) (k : Kernel)
    → i < 8
    → desc_of i (close_one devices uninit i k) ≡ record (desc_of i k) {
      flags = if leb 2 i && (desc_of i k).flags == 1 then 0 else (desc_of i k).flags;
    }
close_one_self devices uninit i k lt = elim (Bool-cases (leb 2 i && (desc_of i k).flags == 1)) [
  | inl e ↦
      let off : FileDesc = record (desc_of i k) { flags = 0 } in
      rw e (
        ap (λ x. desc_of i x) (close_one-closed devices uninit i k lt e)
        ∙ (close_ops-desc_of devices uninit (desc_of i k).fops_jmp_tb_ptr i i (put_desc i off k)
            ∙ desc_of-put_desc_self i off k))
  | inr e ↦ rw e (ap (λ x. desc_of i x) (close_one-kept devices uninit i k e))
]

close_one-ne :
    (devices : Devices) (uninit i j : ℕ) (k : Kernel)
    → i < 8
    → j ≢ i
    → desc_of j (close_one devices uninit i k) ≡ desc_of j k
close_one-ne devices uninit i j k lt ne = elim (Bool-cases (leb 2 i && (desc_of i k).flags == 1)) [
  | inl e ↦
      let off : FileDesc = record (desc_of i k) { flags = 0 } in
      ap (λ x. desc_of j x) (close_one-closed devices uninit i k lt e)
      ∙ (close_ops-desc_of devices uninit (desc_of i k).fops_jmp_tb_ptr i j (put_desc i off k)
          ∙ desc_of-put_desc_ne i j off k ne)
  | inr e ↦ ap (λ x. desc_of j x) (close_one-kept devices uninit i k e)
]

-- One round of the closing loop ends its own descriptor and keeps the others.
abbrev pub end_one : Devices → ℕ → ℕ → Kernel → Kernel
end_one devices uninit i k =
    let k1 = close_one devices uninit i k in
    put_desc i (record (desc_of i k1) { fops_jmp_tb_ptr = no_file_ops }) k1

end_one_self :
    (devices : Devices) (uninit i : ℕ) (k : Kernel)
    → i < 8
    → desc_of i (end_one devices uninit i k) ≡ ended i (desc_of i k)
end_one_self devices uninit i k lt =
    let k1 : Kernel = close_one devices uninit i k in
    desc_of-put_desc_self i (record (desc_of i k1) { fops_jmp_tb_ptr = no_file_ops }) k1
    ∙ ap (λ (v : FileDesc). record v { fops_jmp_tb_ptr = no_file_ops })
        (close_one_self devices uninit i k lt)

end_one-ne :
    (devices : Devices) (uninit i j : ℕ) (k : Kernel)
    → i < 8
    → j ≢ i
    → desc_of j (end_one devices uninit i k) ≡ desc_of j k
end_one-ne devices uninit i j k lt ne =
    let k1 : Kernel = close_one devices uninit i k in
    desc_of-put_desc_ne i j (record (desc_of i k1) { fops_jmp_tb_ptr = no_file_ops }) k1 ne
    ∙ close_one-ne devices uninit i j k lt ne

close_all-before :
    (left : ℕ) (devices : Devices) (uninit i j : ℕ) (k : Kernel)
    → i + left ≤ 8
    → j < i
    → desc_of j (close_all devices uninit left i k) ≡ desc_of j k
unfolding close_all
close_all-before zero devices uninit i j k le lt = refl
close_all-before (suc left) devices uninit i j k le lt =
    close_all-before left devices uninit (i + 1) j (end_one devices uninit i k) (omega arith)
      (omega arith)
    ∙ end_one-ne devices uninit i j k (omega arith) (omega arith)

close_all-ended :
    (left : ℕ) (devices : Devices) (uninit i j : ℕ) (k : Kernel)
    → i + left ≡ 8
    → i ≤ j
    → j < 8
    → desc_of j (close_all devices uninit left i k) ≡ ended j (desc_of j k)
unfolding close_all
close_all-ended zero devices uninit i j k e le lt = absurd (omega arith)
close_all-ended (suc left) devices uninit i j k e le lt = elim (Bool-cases (i == j)) [
  | inl same ↦
      let here : i ≡ j = ground arith in
      rw here (
        close_all-before left devices uninit (j + 1) j (end_one devices uninit j k) (omega arith)
          (omega arith)
        ∙ end_one_self devices uninit j k lt)
  | inr ne ↦
      close_all-ended left devices uninit (i + 1) j (end_one devices uninit i k) (omega arith)
        (ground arith) lt
      ∙ ap (ended j) (end_one-ne devices uninit i j k (omega arith) (ground arith))
]

-- The closing loop changes neither the process numbers in use nor the kernel stack.
abbrev Kept : Kernel → Kernel → Type 0
Kept k' k = (k'.proc_id_flags ≡ k.proc_id_flags) × (k'.stack_slot ≡ k.stack_slot)

close_one-Kept :
    (devices : Devices) (uninit i : ℕ) (k : Kernel) → i < 8 → Kept (close_one devices uninit i k) k
close_one-Kept devices uninit i k lt = elim (Bool-cases (leb 2 i && (desc_of i k).flags == 1)) [
  | inl e ↦
      let off : FileDesc = record (desc_of i k) { flags = 0 } in
      let by = close_ops-pcbs devices uninit (desc_of i k).fops_jmp_tb_ptr i (put_desc i off k) in
      let run = close_one-closed devices uninit i k lt e in
      (ap (λ x. x.proc_id_flags) run ∙ by.2, ap (λ x. x.stack_slot) run ∙ by.1)
  | inr e ↦
      let run = close_one-kept devices uninit i k e in
      (ap (λ x. x.proc_id_flags) run, ap (λ x. x.stack_slot) run)
]

close_all-Kept :
    (left : ℕ) (devices : Devices) (uninit i : ℕ) (k : Kernel)
    → i + left ≤ 8
    → Kept (close_all devices uninit left i k) k
unfolding close_all
close_all-Kept zero devices uninit i k le = (refl, refl)
close_all-Kept (suc left) devices uninit i k le =
    let rest =
      close_all-Kept left devices uninit (i + 1) (end_one devices uninit i k) (omega arith) in
    let one = close_one-Kept devices uninit i k (omega arith) in (rest.0 ∙ one.0, rest.1 ∙ one.1)

-- `halt` frees the process number that was active, and no other. Of the block on its kernel stack,
-- every descriptor gets the table that does nothing, and those from 2 on that were active are no
-- longer; 0 and 1 keep their flags. The process numbered 0 starts the shell again.
pub halt-frees :
    (devices : Devices) (uninit status j : ℕ) (k : Kernel)
    → j < 8
    → let (flow, k') = halt devices uninit status k in
      (k'.proc_id_flags ≡ store k.proc_id_flags k.active_proc_num 0)
      × (((k'.pcbs k.stack_slot).f_descs j) ≡ ended j (desc_of j k))
      × ((k.active_proc_num ≢ 0) ⊎ (flow ≡ execute_shell))
unfolding halt
halt-frees devices uninit status j k lt =
    let k1 : Kernel = record (on_io cli k) {
      proc_id_flags = store k.proc_id_flags k.active_proc_num 0;
    } in
    let kc : Kernel = close_all devices uninit 8 0 k1 in
    let kept : Kept kc k1 = close_all-Kept 8 devices uninit 0 k1 (omega arith) in
    let descs : (kc.pcbs k.stack_slot).f_descs j ≡ ended j (desc_of j k) =
      ap (λ x. (kc.pcbs x).f_descs j) (sym kept.1)
      ∙ close_all-ended 8 devices uninit 0 j k1 refl (omega arith) lt in
    elim (Bool-cases (k.active_proc_num == 0)) [
      | inl e ↦ rw e (kept.0, descs, inr refl)
      | inr e ↦ rw e (kept.0, descs, inl (ground arith))
    ]
