-- ===== src/Process/Closing.antt =====
-- Closing a descriptor.
use chap_os.Common.{
  ℕ, ◌≤◌, ◌<◌, ◌≡◌, ◌≢◌, ◌⊎◌, refl, ap, ◌∙◌, inl, inr, arith, Bool-cases, ◌==◌, ℤ, pos, minus_one,
}
use chap_os.Pic.{Devices}
use chap_os.FileSys.{FileDesc}
use chap_os.Process.{Kernel, desc_of, put_desc}
use chap_os.Process.Files.{close, close_ops}
use chap_os.Rtc.{rtc_close}
use chap_os.Process.Descriptors.{table_for, opened, desc_of-put_desc_self, desc_of-put_desc_ne}

pub close-run :
    (devices : Devices) (uninit fd : ℕ) (k : Kernel)
    → 2 ≤ fd
    → fd < 8
    → (desc_of fd k).flags ≡ 1
    → close devices uninit (pos fd) k
      ≡ close_ops devices uninit
          (desc_of fd k).fops_jmp_tb_ptr
          fd
          (put_desc fd (record (desc_of fd k) { flags = 0 }) k)
unfolding close
close-run devices uninit fd k low high active = ground arith

close-inactive :
    (devices : Devices) (uninit fd : ℕ) (k : Kernel)
    → (desc_of fd k).flags ≢ 1
    → close devices uninit (pos fd) k ≡ (minus_one, k)
unfolding close
close-inactive devices uninit fd k h = ground arith

others :
    (fd j : ℕ) (k : Kernel) (v : FileDesc) (k' : Kernel)
    → desc_of j k' ≡ desc_of j (put_desc fd v k)
    → (j ≡ fd) ⊎ (desc_of j k' ≡ desc_of j k)
others fd j k v k' e = elim (Bool-cases (j == fd)) [
  | inl same ↦ inl (ground arith)
  | inr ne ↦ inr (e ∙ desc_of-put_desc_ne fd j v k (ground arith))
]

-- The three tables that `open` sets close without an error, and leave every descriptor alone.
close_ops-table_for :
    (devices : Devices) (uninit fd j file_type : ℕ) (k : Kernel)
    → let (r, k') = close_ops devices uninit (table_for file_type) fd k in
      (r ≡ pos 0) × (desc_of j k' ≡ desc_of j k)
unfolding close_ops rtc_close
close_ops-table_for devices uninit fd j file_type k = elim (Bool-cases (file_type == 1)) [
  | inl d ↦ rw d (refl, refl)
  | inr d ↦ elim (Bool-cases (file_type == 2)) [
    | inl e ↦ rw (d, e) (refl, refl)
    | inr e ↦ rw (d, e) (refl, refl)
  ]
]

-- A descriptor from 2 to 7 that `open` has set up, whatever the file's type, is given back by
-- `close`: it returns 0, this descriptor is no longer active, every other one is as it was, and a
-- second `close` of it returns -1.
pub close-opened :
    (devices : Devices) (uninit fd j file_type inode_num : ℕ) (k : Kernel)
    → 2 ≤ fd
    → fd < 8
    → desc_of fd k ≡ opened file_type inode_num
    → let (r, k') = close devices uninit (pos fd) k in
      (r ≡ pos 0)
      × ((desc_of fd k').flags ≡ 0)
      × ((j ≡ fd) ⊎ (desc_of j k' ≡ desc_of j k))
      × ((close devices uninit (pos fd) k').0 ≡ minus_one)
close-opened devices uninit fd j file_type inode_num k low high set_up =
    let active : (desc_of fd k).flags ≡ 1 = ap (λ v. v.flags) set_up in
    let table : (desc_of fd k).fops_jmp_tb_ptr ≡ table_for file_type =
      ap (λ v. v.fops_jmp_tb_ptr) set_up in
    let off : FileDesc = record (desc_of fd k) { flags = 0 } in
    let k1 : Kernel = put_desc fd off k in
    let closed : ℤ × Kernel = close_ops devices uninit (table_for file_type) fd k1 in
    let run : close devices uninit (pos fd) k ≡ closed =
      close-run devices uninit fd k low high active
      ∙ ap (λ o. close_ops devices uninit o fd k1) table in
    let kept : (i : ℕ) → (closed.0 ≡ pos 0) × (desc_of i closed.1 ≡ desc_of i k1) =
      λ i. close_ops-table_for devices uninit fd i file_type k1 in
    let flag : (desc_of fd closed.1).flags ≡ 0 =
      ap (λ v. v.flags) ((kept fd).1 ∙ desc_of-put_desc_self fd off k) in
    rw run (
      (kept fd).0,
      flag,
      others fd j k off closed.1 (kept j).1,
      ap (λ r. r.0) (close-inactive devices uninit fd closed.1 (ground arith)),
    )
