-- ===== src/FileSys/Read.antt =====
-- `read_data` and `file_read`: how many bytes come, which ones, and that reads follow on.
use chap_os.Common.{
  ℕ, ◌+◌, ◌*◌, ◌/◌, ◌%◌, ◌^◌, ◌≤◌, ◌<◌, ◌≡◌, ◌⊎◌, refl, arith, false, leb, if◌then◌else◌, Mem,
  placed-zero, load32, pos, minus_one,
}
use mathlib.Core.Path.{subst}
use chap_os.FileSys.{
  FileSys, Pcb, read_bytes, read_data, block_address, inode_address, num_inodes, file_read,
  set_file_pos, get_file_size,
}
use chap_os.FileSys.Data.{file_byte, delivered, Clear, readable, read_bytes-delivered}

-- Where the inode exists, its file is smaller than the 1023 blocks of 4096 bytes that an inode has
-- room for, `offset` is inside the file, and no byte of the inode and its blocks is
-- among the bytes written, `read_data` returns the smaller of `len` and one more than the number of
-- bytes left in the file, and puts that many bytes of the file from `offset` on, in order and from
-- the right blocks, at `buf`; no other byte of memory changes.
pub read_data-delivered :
    (fs : FileSys) (inode offset buf len : ℕ) (m : Mem)
    → inode < num_inodes fs m
    → offset < get_file_size fs inode m
    → get_file_size fs inode m < 1023 * 4096
    → Clear fs m (inode_address fs inode) buf (readable (get_file_size fs inode m) offset len)
    → read_data fs inode offset buf len m ≡ (
      pos (readable (get_file_size fs inode m) offset len),
      delivered fs m
          (inode_address fs inode)
          offset
          buf
          (readable (get_file_size fs inode m) offset len),
    )
unfolding read_data get_file_size
read_data-delivered fs inode offset buf len m known inside big c =
    let p : ℕ = inode_address fs inode in
    let n : ℕ = readable (load32 m p) offset len in
    let n' : n ≡ readable (load32 m p) offset (0 + len) = ground arith in
    let g : ℕ → ℕ = λ k. file_byte fs m p (offset + k) in
    let some_inode : leb (num_inodes fs m) inode ≡ false = ground arith in
    let some_bytes : leb (load32 m p) offset ≡ false = ground arith in
    rw (some_inode, some_bytes)
      (subst
        (λ k.
          read_bytes len fs p offset buf (offset / 4096) (offset % 4096)
            (block_address fs m p (offset / 4096)) 0 k
          ≡ (pos n, delivered fs m p offset buf n))
        (placed-zero m buf g)
        (read_bytes-delivered len fs m p offset buf (offset / 4096) (offset % 4096)
          (block_address fs m p (offset / 4096)) 0 n c big (omega arith) n' (omega arith)
          (omega arith) refl))

-- A read that starts at or past the end, or at an inode that does not exist, changes no memory, and
-- returns 0 or -1.
pub read_data-refused :
    (fs : FileSys) (inode offset buf len : ℕ) (m : Mem)
    → (num_inodes fs m ≤ inode) ⊎ (get_file_size fs inode m ≤ offset)
    → read_data fs inode offset buf len m
      ≡ (if leb (num_inodes fs m) inode then minus_one else pos 0, m)
unfolding read_data get_file_size
read_data-refused fs inode offset buf len m h = ground arith

-- `file_read` from inside the file returns what `read_data` reads, and moves the position of this
-- descriptor past it, which changes no other descriptor.
pub file_read-delivered :
    (fs : FileSys) (fd buf len inode offset size : ℕ) (p : Pcb) (m : Mem)
    → len < 2 ^ 31
    → (p.f_descs fd).inode ≡ inode
    → (p.f_descs fd).file_pos ≡ offset
    → get_file_size fs inode m ≡ size
    → inode < num_inodes fs m
    → offset < size
    → size < 1023 * 4096
    → Clear fs m (inode_address fs inode) buf (readable size offset len)
    → file_read fs fd buf (pos len) p m ≡ (
      pos (readable size offset len),
      set_file_pos fd (offset + readable size offset len) p,
      delivered fs m (inode_address fs inode) offset buf (readable size offset len),
    )
unfolding file_read
file_read-delivered fs fd buf len inode offset size p m short i o s known inside big c =
    let same : len % 2 ^ 32 ≡ len = omega arith in
    let n : ℕ = readable size offset len in
    let pos_same : (offset + n % 2 ^ 32) % 2 ^ 32 ≡ offset + n = ground arith in
    let run : read_data fs inode offset buf len m
        ≡ (pos n, delivered fs m (inode_address fs inode) offset buf n) =
      rw s at (
        read_data-delivered fs inode offset buf len m known (ground arith) (ground arith)
          (rw s c)) in
    rw (same, i, o, run, pos_same) refl

part : (a buf n k : ℕ) → (a + 4096 ≤ buf) ⊎ (buf + n ≤ a) → k ≤ n → (a + 4096 ≤ buf) ⊎ (buf + k ≤ a)
part a buf n k h le = omega arith

pub Clear-part :
    (fs : FileSys) (m : Mem) (p buf n k : ℕ) → Clear fs m p buf n → k ≤ n → Clear fs m p buf k
Clear-part fs m p buf n k c le =
    let near : (p + 4096 ≤ buf) ⊎ (buf + n ≤ p) = c.inode in
    record {
      inode = omega arith;
      blocks = λ b lt. part (block_address fs m p b) buf n k (c.blocks b lt) le;
    }
