-- ===== src/Process/Descriptors.antt =====
-- `open` and `close`: which descriptor is taken, what it holds, and that closing gives it back.
use chap_os.Common.{
  ℕ, zero, suc, ◌+◌, ◌≤◌, ◌<◌, ◌≡◌, ◌≢◌, ◌⊎◌, refl, ap, ◌∙◌, inl, inr, arith, Bool-cases, true,
  false, ◌==◌, if◌then◌else◌, pos, minus_one, none, some, Mem, load32,
}
use chap_os.Pic.{Devices}
use chap_os.FileSys.{FileOps, FileDesc, set_desc, rtc_ops, file_ops, dir_ops, read_dentry_by_name}
use chap_os.Process.{Kernel, mem_of, set_mem, desc_of, put_desc, get_pcb_ptr}
use chap_os.Process.Files.{find_slot, set_kind, open_at, open_call}
use chap_os.Rtc.{rtc_open}

find_slot-lowest :
    (left i n : ℕ) (k : Kernel)
    → i ≤ n
    → n < i + left
    → (desc_of n k).flags ≢ 1
    → ((j : ℕ) → i ≤ j → j < n → (desc_of j k).flags ≡ 1)
    → find_slot left i k ≡ some n
unfolding find_slot
find_slot-lowest zero i n k le lt free taken = absurd (omega arith)
find_slot-lowest (suc left) i n k le lt free taken = elim (Bool-cases (i == n)) [
  | inl e ↦
      let same : i ≡ n = ground arith in
      let here : ((desc_of n k).flags == 1) ≡ false = ground arith in rw (same, here) refl
  | inr e ↦
      let there : ((desc_of i k).flags == 1) ≡ true = ground (arith, taken i (omega arith)) in
      rw there (
        find_slot-lowest left (i + 1) n k (ground arith) (omega arith) free
          (λ j l u. taken j (omega arith) u))
]

find_slot-none :
    (left i : ℕ) (k : Kernel)
    → ((j : ℕ) → i ≤ j → j < i + left → (desc_of j k).flags ≡ 1)
    → find_slot left i k ≡ none
unfolding find_slot
find_slot-none zero i k taken = refl
find_slot-none (suc left) i k taken =
    let there : ((desc_of i k).flags == 1) ≡ true =
      ground (arith, taken i (omega arith) (omega arith)) in
    rw there (find_slot-none left (i + 1) k (λ j l u. taken j (omega arith) (omega arith)))

-- The table of operations for a file's type: directory, file, and the clock for every other type.
abbrev pub table_for : ℕ → FileOps
table_for file_type =
    if file_type == 1 then dir_ops else if file_type == 2 then file_ops else rtc_ops

-- The descriptor that `open` sets up for a file's type and inode number.
abbrev pub opened : ℕ → ℕ → FileDesc
opened file_type inode_num = record {
  fops_jmp_tb_ptr = table_for file_type;
  inode = if file_type == 2 then inode_num else 0;
  file_pos = 0;
  flags = 1;
}

pub desc_of-put_desc_self : (fd : ℕ) (v : FileDesc) (k : Kernel) → desc_of fd (put_desc fd v k) ≡ v
desc_of-put_desc_self fd v k =
    let self : (fd == fd) ≡ true = ground arith in
    let slot : (k.stack_slot == k.stack_slot) ≡ true = ground arith in
    ap (λ b. (if b then set_desc fd v (get_pcb_ptr k) else get_pcb_ptr k).f_descs fd) slot
    ∙ rw self refl

pub desc_of-put_desc_ne :
    (fd j : ℕ) (v : FileDesc) (k : Kernel) → j ≢ fd → desc_of j (put_desc fd v k) ≡ desc_of j k
desc_of-put_desc_ne fd j v k ne =
    let other : (j == fd) ≡ false = ground arith in
    let slot : (k.stack_slot == k.stack_slot) ≡ true = ground arith in
    ap (λ b. (if b then set_desc fd v (get_pcb_ptr k) else get_pcb_ptr k).f_descs j) slot
    ∙ rw other refl

-- Two changes of the descriptor, as `open` makes them.
put_kind_self :
    (fd : ℕ) (ops : FileOps) (inode : ℕ) (k : Kernel)
    → desc_of fd
        (set_kind fd ops inode (put_desc fd (record (desc_of fd k) { flags = 1; file_pos = 0 }) k))
      ≡ record { fops_jmp_tb_ptr = ops; inode = inode; file_pos = 0; flags = 1 }
put_kind_self fd ops inode k =
    let k1 : Kernel = put_desc fd (record (desc_of fd k) { flags = 1; file_pos = 0 }) k in
    desc_of-put_desc_self fd (record (desc_of fd k1) { fops_jmp_tb_ptr = ops; inode = inode }) k1
    ∙ ap (λ (v : FileDesc). record v { fops_jmp_tb_ptr = ops; inode = inode })
        (desc_of-put_desc_self fd (record (desc_of fd k) { flags = 1; file_pos = 0 }) k)

put_kind-ne :
    (fd j : ℕ) (ops : FileOps) (inode : ℕ) (k : Kernel)
    → j ≢ fd
    → desc_of j
        (set_kind fd ops inode (put_desc fd (record (desc_of fd k) { flags = 1; file_pos = 0 }) k))
      ≡ desc_of j k
put_kind-ne fd j ops inode k ne =
    let k1 : Kernel = put_desc fd (record (desc_of fd k) { flags = 1; file_pos = 0 }) k in
    desc_of-put_desc_ne fd j (record (desc_of fd k1) { fops_jmp_tb_ptr = ops; inode = inode }) k1 ne
    ∙ desc_of-put_desc_ne fd j (record (desc_of fd k) { flags = 1; file_pos = 0 }) k ne

-- The descriptors after the part of `open` that sets one up.
open_at-opened :
    (devices : Devices) (uninit filename file_type inode_num fd j : ℕ) (k : Kernel)
    → let (r, k') = open_at devices uninit filename file_type inode_num fd k in
      (r ≡ pos fd)
      × (desc_of fd k' ≡ opened file_type inode_num)
      × ((j ≡ fd) ⊎ (desc_of j k' ≡ desc_of j k))
unfolding open_at rtc_open
open_at-opened devices uninit filename file_type inode_num fd j k =
    let other : (ops : FileOps) (inode : ℕ)
        → (j ≡ fd)
          ⊎ (desc_of j (
                set_kind fd ops inode
                  (put_desc fd (record (desc_of fd k) { flags = 1; file_pos = 0 }) k))
              ≡ desc_of j k) =
      λ ops inode. elim (Bool-cases (j == fd)) [
        | inl e ↦ inl (ground arith)
        | inr e ↦ inr (put_kind-ne fd j ops inode k (ground arith))
      ] in
    elim (Bool-cases (file_type == 1)) [
      | inl d ↦
          let file : (file_type == 2) ≡ false = ground arith in
          rw (d, file) (refl, put_kind_self fd dir_ops 0 k, other dir_ops 0)
      | inr d ↦ elim (Bool-cases (file_type == 2)) [
        | inl e ↦ rw (d, e) (refl, put_kind_self fd file_ops inode_num k, other file_ops inode_num)
        | inr e ↦ rw (d, e) (refl, put_kind_self fd rtc_ops 0 k, other rtc_ops 0)
      ]
    ]

-- When the file is found and a descriptor from 2 to 7 is free, `open` returns the lowest free one.
-- That one is then active, at position 0, with the operations of the file's type, and with the inode
-- if it is a regular file; every other descriptor is as it was.
pub open_call-lowest :
    (devices : Devices) (uninit entry filename fd j : ℕ) (k : Kernel)
    → filename ≢ 0
    → mem_of k filename ≢ 0
    → (read_dentry_by_name k.fs filename entry (mem_of k)).0 ≡ pos 0
    → 2 ≤ fd
    → fd < 8
    → (desc_of fd k).flags ≢ 1
    → ((i : ℕ) → 2 ≤ i → i < fd → (desc_of i k).flags ≡ 1)
    → let m = (read_dentry_by_name k.fs filename entry (mem_of k)).1 in
      let (r, k') = open_call devices uninit entry filename k in
      (r ≡ pos fd)
      × (desc_of fd k' ≡ opened (load32 m (entry + 32)) (load32 m (entry + 36)))
      × ((j ≡ fd) ⊎ (desc_of j k' ≡ desc_of j k))
unfolding open_call
open_call-lowest devices uninit entry filename fd j k real named found low high free taken =
    let m : Mem = (read_dentry_by_name k.fs filename entry (mem_of k)).1 in
    let real' : (filename == 0) ≡ false = ground arith in
    let named' : (mem_of k filename == 0) ≡ false = ground arith in
    rw (real', named', found, find_slot-lowest 6 2 fd (set_mem m k) low (omega arith) free taken)
      (open_at-opened devices uninit filename (load32 m (entry + 32)) (load32 m (entry + 36)) fd j
        (set_mem m k))

-- With descriptors 2 to 7 all active `open` of a file that is found returns -1, and of the kernel's state only the memory of the
-- local dentry has changed.
pub open_call-full :
    (devices : Devices) (uninit entry filename : ℕ) (k : Kernel)
    → filename ≢ 0
    → mem_of k filename ≢ 0
    → (read_dentry_by_name k.fs filename entry (mem_of k)).0 ≡ pos 0
    → ((i : ℕ) → 2 ≤ i → i < 8 → (desc_of i k).flags ≡ 1)
    → open_call devices uninit entry filename k
      ≡ (minus_one, set_mem (read_dentry_by_name k.fs filename entry (mem_of k)).1 k)
unfolding open_call
open_call-full devices uninit entry filename k real named found taken =
    let m : Mem = (read_dentry_by_name k.fs filename entry (mem_of k)).1 in
    let real' : (filename == 0) ≡ false = ground arith in
    let named' : (mem_of k filename == 0) ≡ false = ground arith in
    rw (real', named', found, find_slot-none 6 2 (set_mem m k) taken) refl
