-- ===== src/FileSys/Data.antt =====
-- `read_data`: the bytes of a file, block by block.
use chap_os.Common.{
  ℕ, zero, suc, ◌+◌, ◌-◌, ◌*◌, ◌/◌, ◌%◌, ◌^◌, ◌≤◌, ◌<◌, ◌≡◌, ◌⊎◌, inl, inr, refl, ap, arith,
  Bool-cases, leb, ◌==◌, if◌then◌else◌, Mem, store, placed, placed-other, placed-suc, load32, pos,
}
use chap_os.FileSys.{FileSys, read_bytes, block_address}

-- Byte `k` of the file whose inode is at `p`.
abbrev pub file_byte : FileSys → Mem → ℕ → ℕ → ℕ
file_byte fs m p k = m (block_address fs m p (k / 4096) + k % 4096)

-- Memory once the `n` bytes of the file from `offset` on are at `buf`.
abbrev pub delivered : FileSys → Mem → ℕ → ℕ → ℕ → ℕ → Mem
delivered fs m p offset buf n = placed m buf n (λ k. file_byte fs m p (offset + k))

-- No byte of the inode or of its blocks is among the `n` bytes at `buf`.
pub record Clear (fs : FileSys) (m : Mem) (p buf n : ℕ) : Type 0 where
  pub inode : (p + 4096 ≤ buf) ⊎ (buf + n ≤ p)
  pub blocks :
      (b : ℕ)
      → b < 1023
      → (block_address fs m p b + 4096 ≤ buf) ⊎ (buf + n ≤ block_address fs m p b)

pub delivered-load32 :
    (fs : FileSys) (m : Mem) (p offset buf i n q : ℕ)
    → Clear fs m p buf n
    → i ≤ n
    → p ≤ q
    → q + 4 ≤ p + 4096
    → load32 (delivered fs m p offset buf i) q ≡ load32 m q
delivered-load32 fs m p offset buf i n q c h lo hi =
    let apart : (p + 4096 ≤ buf) ⊎ (buf + n ≤ p) = c.inode in
    let same : (r : ℕ) → q ≤ r → r < q + 4 → delivered fs m p offset buf i r ≡ m r =
      λ r l u. placed-other m buf i r (λ k. file_byte fs m p (offset + k)) (omega arith) in
    rw
      (
        same q (omega arith) (omega arith),
        same (q + 1) (omega arith) (omega arith),
        same (q + 2) (omega arith) (omega arith),
        same (q + 3) (omega arith) (omega arith),
      )
      refl

beyond :
    (a buf i n k : ℕ)
    → (a + 4096 ≤ buf) ⊎ (buf + n ≤ a)
    → i ≤ n
    → k < 4096
    → (a + k < buf) ⊎ (buf + i ≤ a + k)
beyond a buf i n k h le lt = omega arith

pub delivered-block :
    (fs : FileSys) (m : Mem) (p offset buf i n b k : ℕ)
    → Clear fs m p buf n
    → i ≤ n
    → b < 1023
    → k < 4096
    → delivered fs m p offset buf i (block_address fs m p b + k) ≡ m (block_address fs m p b + k)
delivered-block fs m p offset buf i n b k c h lt small =
    placed-other m buf i (block_address fs m p b + k) (λ j. file_byte fs m p (offset + j))
      (beyond (block_address fs m p b) buf i n k (c.blocks b lt) h small)

next_byte :
    (fs : FileSys) (m : Mem) (p offset buf i n index loc : ℕ)
    → Clear fs m p buf n
    → i ≤ n
    → index < 1023
    → loc < 4096
    → 4096 * index + loc ≡ offset + i
    → delivered fs m p offset buf i (block_address fs m p index + loc)
      ≡ file_byte fs m p (offset + i)
next_byte fs m p offset buf i n index loc c le lt small e =
    let block_index : (offset + i) / 4096 ≡ index = omega arith in
    let within_block : (offset + i) % 4096 ≡ loc = omega arith in
    rw (block_index, within_block) (delivered-block fs m p offset buf i n index loc c le lt small)

pub next_block :
    (fs : FileSys) (m : Mem) (p offset buf i n index : ℕ)
    → Clear fs m p buf n
    → i ≤ n
    → index < 1023
    → block_address fs (delivered fs m p offset buf i) p index ≡ block_address fs m p index
next_block fs m p offset buf i n index c le lt =
    ap (λ w. (fs.data_block_start + w * 4096) % 2 ^ 32)
      (delivered-load32 fs m p offset buf i n (p + 4 + 4 * index) c le (omega arith) (omega arith))

-- How many bytes `read_data` reads of a file of `size` bytes: one more than the file has left, where
-- fewer than `len` are left.
abbrev pub readable : ℕ → ℕ → ℕ → ℕ
readable size offset len = if leb (offset + len) (size + 1) then len else size + 1 - offset

pub read_bytes-delivered :
    (left : ℕ) (fs : FileSys) (m : Mem) (p offset buf index loc block i n : ℕ)
    → Clear fs m p buf n
    → load32 m p < 1023 * 4096
    → offset + i ≤ load32 m p + 1
    → n ≡ readable (load32 m p) offset (i + left)
    → loc ≤ 4096
    → 4096 * index + loc ≡ offset + i
    → block ≡ block_address fs m p index
    → read_bytes left fs p offset buf index loc block i (delivered fs m p offset buf i)
      ≡ (pos n, delivered fs m p offset buf n)
unfolding read_bytes
read_bytes-delivered zero fs m p offset buf index loc block i n c big le en l e b =
    let done : i ≡ n = ground arith in rw done refl
read_bytes-delivered (suc left) fs m p offset buf index loc block i n c big le en l e b =
    let now : Mem = delivered fs m p offset buf i in
    let le_n : i ≤ n = ground arith in
    let size : load32 now p ≡ load32 m p =
      delivered-load32 fs m p offset buf i n p c le_n (omega arith) (omega arith) in
    let next : (j k : ℕ)
        → j < 1023
        → k < 4096
        → 4096 * j + k ≡ offset + i
        → offset + i ≤ load32 m p
        → read_bytes left fs p offset buf j (k + 1) (block_address fs m p j) (i + 1)
            (store now (buf + i) (now (block_address fs m p j + k)))
          ≡ (pos n, delivered fs m p offset buf n) =
      λ j k lt small e' more.
        rw
          (
            next_byte fs m p offset buf i n j k c le_n lt small e',
            placed-suc m buf i (λ x. file_byte fs m p (offset + x)),
          )
          (read_bytes-delivered left fs m p offset buf j (k + 1) (block_address fs m p j) (i + 1) n
            c big (omega arith) (ground arith) (omega arith) (omega arith) refl) in
    elim (Bool-cases (leb ((i + offset) % 2 ^ 32) (load32 m p))) [
      | inl go ↦ elim (Bool-cases (loc == 4096)) [
        | inl full ↦
            rw (size, go, full, next_block fs m p offset buf i n (index + 1) c le_n (ground arith))
              (next (index + 1) 0 (ground arith) (omega arith) (ground arith) (ground arith))
        | inr room ↦
            rw (size, go, room, b) (next index loc (ground arith) (ground arith) e (ground arith))
      ]
      | inr stop ↦ let done : i ≡ n = ground arith in rw (size, stop, done) refl
    ]
