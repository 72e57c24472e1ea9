-- ===== src/FileSys/Append.antt =====
-- Two reads that follow one another are one read.
use chap_os.Common.{
  ℕ, ◌+◌, ◌-◌, ◌*◌, ◌/◌, ◌%◌, ◌^◌, ◌≤◌, ◌<◌, ◌≡◌, ◌⊎◌, inl, inr, refl, ap, ◌∙◌, fun_ext, arith,
  Bool-cases, true, ◌==◌, Mem, placed, load32-placed, pos,
}
use chap_os.FileSys.{
  FileSys, FileDesc, Pcb, block_address, inode_address, num_inodes, file_read, to_uint32,
  set_file_pos, get_file_size,
}
use chap_os.FileSys.Data.{
  file_byte, delivered, Clear, readable, delivered-load32, delivered-block, next_block,
}
use chap_os.FileSys.Read.{file_read-delivered, Clear-part}

set_file_pos-twice :
    (fd a b : ℕ) (p : Pcb) → set_file_pos fd a (set_file_pos fd b p) ≡ set_file_pos fd a p
set_file_pos-twice fd a b p =
    ap (λ (d : ℕ → FileDesc). record p { f_descs = d })
      (fun_ext λ i.
        let self : (fd == fd) ≡ true = ground arith in
        rw self (elim (Bool-cases (i == fd)) [ inl e ↦ rw e refl | inr e ↦ rw e refl ]))

placed-append :
    (m : Mem) (buf a b : ℕ) (g : ℕ → ℕ)
    → placed (placed m buf a g) (buf + a) b (λ k. g (a + k)) ≡ placed m buf (a + b) g
placed-append m buf a b g = fun_ext λ x. ground arith

placed-cong :
    (m : Mem) (buf n : ℕ) (g h : ℕ → ℕ)
    → ((k : ℕ) → k < n → g k ≡ h k)
    → placed m buf n g ≡ placed m buf n h
placed-cong m buf n g h e = fun_ext λ x. ground (arith, e (x - buf))

-- The file reads the same while some of it has been delivered elsewhere.
file_byte-delivered :
    (fs : FileSys) (m : Mem) (p offset buf i n k : ℕ)
    → Clear fs m p buf n
    → i ≤ n
    → k < 1023 * 4096
    → file_byte fs (delivered fs m p offset buf i) p k ≡ file_byte fs m p k
file_byte-delivered fs m p offset buf i n k c le lt =
    rw (next_block fs m p offset buf i n (k / 4096) c le (omega arith))
      (delivered-block fs m p offset buf i n (k / 4096) (k % 4096) c le (omega arith) (omega arith))

past :
    (a buf n i k : ℕ)
    → (a + 4096 ≤ buf) ⊎ (buf + n ≤ a)
    → i + k ≤ n
    → (a + 4096 ≤ buf + i) ⊎ (buf + i + k ≤ a)
past a buf n i k h le = omega arith

Clear-rest :
    (fs : FileSys) (m : Mem) (p offset buf i k n : ℕ)
    → Clear fs m p buf n
    → i + k ≤ n
    → Clear fs (delivered fs m p offset buf i) p (buf + i) k
Clear-rest fs m p offset buf i k n c le =
    let near : (p + 4096 ≤ buf) ⊎ (buf + n ≤ p) = c.inode in
    record {
      inode = omega arith;
      blocks = λ b lt.
          rw (next_block fs m p offset buf i n b c (omega arith) lt)
            (past (block_address fs m p b) buf n i k (c.blocks b lt) le);
    }

same_size :
    (fs : FileSys) (m : Mem) (inode offset buf i n : ℕ)
    → Clear fs m (inode_address fs inode) buf n
    → i ≤ n
    → get_file_size fs inode (delivered fs m (inode_address fs inode) offset buf i)
      ≡ get_file_size fs inode m
unfolding get_file_size
same_size fs m inode offset buf i n c le =
    delivered-load32 fs m (inode_address fs inode) offset buf i n (inode_address fs inode) c le
      (omega arith) (omega arith)

same_inodes :
    (fs : FileSys) (m : Mem) (p offset buf a b inode : ℕ)
    → (fs.boot_block_ptr + 8 ≤ buf) ⊎ (buf + a + b ≤ fs.boot_block_ptr)
    → inode < num_inodes fs m
    → inode < num_inodes fs (delivered fs m p offset buf a)
same_inodes fs m p offset buf a b inode h lt =
    rw
      (load32-placed m buf a (fs.boot_block_ptr + 4) (λ k. file_byte fs m p (offset + k))
        (omega arith))
      lt

delivered-append :
    (fs : FileSys) (m : Mem) (p offset buf a k n : ℕ)
    → Clear fs m p buf n
    → a + k ≤ n
    → offset + a + k ≤ 1023 * 4096
    → delivered fs (delivered fs m p offset buf a) p (offset + a) (buf + a) k
      ≡ delivered fs m p offset buf (a + k)
delivered-append fs m p offset buf a k n c le big =
    placed-cong (delivered fs m p offset buf a) (buf + a) k
      (λ j. file_byte fs (delivered fs m p offset buf a) p (offset + a + j))
      (λ j. file_byte fs m p (offset + (a + j)))
      (λ j lt.
        file_byte-delivered fs m p offset buf a n (offset + a + j) c (omega arith) (omega arith)
        ∙ ap (file_byte fs m p) (omega arith))
    ∙ placed-append m buf a k (λ j. file_byte fs m p (offset + j))

-- The descriptor's inode exists, and its file is smaller than 1023 blocks of 4096 bytes; `a + b` is
-- below 2^31; the `a + b` bytes at `buf` lie apart from the boot block's counts and from the inode and
-- its blocks. Where then a first read of `a` bytes, from `file_pos` on, ends inside the file, it and a second read of
-- `b` bytes to the addresses after it return together what one read of `a + b` bytes returns, and
-- leave the same memory and the same descriptors: reads follow on without a gap or an overlap.
pub file_read-append :
    (fs : FileSys) (fd buf a b : ℕ) (p : Pcb) (m : Mem)
    → a + b < 2 ^ 31
    → (p.f_descs fd).inode < num_inodes fs m
    → (p.f_descs fd).file_pos + a < get_file_size fs (p.f_descs fd).inode m
    → get_file_size fs (p.f_descs fd).inode m < 1023 * 4096
    → (fs.boot_block_ptr + 8 ≤ buf) ⊎ (buf + a + b ≤ fs.boot_block_ptr)
    → Clear fs m (inode_address fs (p.f_descs fd).inode) buf (a + b)
    → let (n, p1, m1) = file_read fs fd buf (pos a) p m in
      let (k, p2, m2) = file_read fs fd (buf + a) (pos b) p1 m1 in
      let (total, p3, m3) = file_read fs fd buf (pos (a + b)) p m in
      (n ≡ pos a) × (total ≡ pos (a + to_uint32 k)) × (p2 ≡ p3) × (m2 ≡ m3)
file_read-append fs fd buf a b p m short known inside big boot c =
    let inode : ℕ = (p.f_descs fd).inode in
    let offset : ℕ = (p.f_descs fd).file_pos in
    let size : ℕ = get_file_size fs inode m in
    let ip : ℕ = inode_address fs inode in
    let k : ℕ = readable size (offset + a) b in
    let all : readable size offset a ≡ a = ground arith in
    let both : readable size offset (a + b) ≡ a + k = ground arith in
    let p1 : Pcb = set_file_pos fd (offset + a) p in
    let m1 : Mem = delivered fs m ip offset buf a in
    let self : (fd == fd) ≡ true = ground arith in
    let first : file_read fs fd buf (pos a) p m ≡ (pos a, p1, m1) = rw all at (
      file_read-delivered fs fd buf a inode offset size p m (omega arith) refl refl refl known
        (omega arith) big
        (Clear-part fs m ip buf (a + b) (readable size offset a) c (ground arith))) in
    let whole : file_read fs fd buf (pos (a + b)) p m ≡ (
      pos (a + k),
      set_file_pos fd (offset + (a + k)) p,
      delivered fs m ip offset buf (a + k),
    ) =
      rw both at (
        file_read-delivered fs fd buf (a + b) inode offset size p m short refl refl refl known
          (omega arith) big
          (Clear-part fs m ip buf (a + b) (readable size offset (a + b)) c (ground arith))) in
    let second : file_read fs fd (buf + a) (pos b) p1 m1 ≡ (
      pos k,
      set_file_pos fd (offset + a + k) p1,
      delivered fs m1 ip (offset + a) (buf + a) k,
    ) =
      file_read-delivered fs fd (buf + a) b inode (offset + a) size p1 m1 (omega arith)
        (rw self refl) (rw self refl) (same_size fs m inode offset buf a (a + b) c (omega arith))
        (same_inodes fs m ip offset buf a b inode boot known) inside big
        (Clear-rest fs m ip offset buf a k (a + b) c (ground arith)) in
    let wide : k % 2 ^ 32 ≡ k = ground arith in
    let assoc : offset + (a + k) ≡ offset + a + k = omega arith in
    rw (first, second, whole, wide, assoc)
      (
        refl,
        refl,
        set_file_pos-twice fd (offset + a + k) (offset + a) p,
        delivered-append fs m ip offset buf a k (a + b) c (ground arith) (ground arith),
      )
