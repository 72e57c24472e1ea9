-- ===== src/User/Cat/Agreeing.antt =====
-- The file reads the same in memories that agree off the buffer and the screen, and what
-- `keyboard_write` prints.
use chap_os.Common.{
  ℕ, zero, suc, ◌+◌, ◌*◌, ◌/◌, ◌%◌, ◌^◌, ◌≤◌, ◌<◌, ◌≡◌, ◌⊎◌, refl, ap, ◌∙◌, arith, inl, inr,
  Bool-cases, ◌==◌, if◌then◌else◌, ◌∷◌, Mem, load32, placed-at, zero,
}
use native.Mathlib.Nat.{add-zero}
use chap_os.Screen.{Display, video, putc, print_text}
use chap_os.Screen.Cursor.{InScreen, putc-InScreen, putc-outside}
use chap_os.Screen.Printf.Pieces.{bytes_at}
use chap_os.FileSys.{FileSys, num_inodes, get_file_size, inode_address, block_address}
use chap_os.FileSys.Data.{file_byte, Clear, delivered}
use chap_os.Keyboard.{write_keys}
use chap_os.User.Cat.{visible, file_bytes, IsFile, Agrees}

load32-Agrees :
    (m m' : Mem) (buf q : ℕ)
    → Agrees buf m m'
    → (q + 4 ≤ buf) ⊎ (buf + 1024 ≤ q)
    → (q + 4 ≤ video) ⊎ (video + 4000 ≤ q)
    → load32 m' q ≡ load32 m q
load32-Agrees m m' buf q h off_buffer off_screen =
    rw
      (
        h q (omega arith) (omega arith),
        h (q + 1) (omega arith) (omega arith),
        h (q + 2) (omega arith) (omega arith),
        h (q + 3) (omega arith) (omega arith),
      )
      refl

module _ (fs : FileSys) (m m' : Mem) (inode buf : ℕ) (f : IsFile fs m inode buf)
    (h : Agrees buf m m') where
  abbrev ip : ℕ
  ip = inode_address fs inode

  -- A word of the inode.
  inode_word : (q : ℕ) → ip ≤ q → q + 4 ≤ ip + 4096 → load32 m' q ≡ load32 m q
  inode_word q lo hi =
      let near : (ip + 4096 ≤ buf) ⊎ (buf + 1024 ≤ ip) = f.off_buffer.inode in
      let far : (ip + 4096 ≤ video) ⊎ (video + 4000 ≤ ip) = f.off_screen.inode in
      load32-Agrees m m' buf q h (omega arith) (omega arith)

  pub num_inodes-Agrees : num_inodes fs m' ≡ num_inodes fs m
  num_inodes-Agrees =
      let near : (fs.boot_block_ptr + 8 ≤ buf) ⊎ (buf + 1024 ≤ fs.boot_block_ptr) =
        f.header_buffer in
      let far : (fs.boot_block_ptr + 8 ≤ video) ⊎ (video + 4000 ≤ fs.boot_block_ptr) =
        f.header_screen in
      load32-Agrees m m' buf (fs.boot_block_ptr + 4) h (omega arith) (omega arith)

  pub size-Agrees : get_file_size fs inode m' ≡ get_file_size fs inode m
  unfolding get_file_size
  size-Agrees = inode_word ip (omega arith) (omega arith)

  block-Agrees : (b : ℕ) → b < 1023 → block_address fs m' ip b ≡ block_address fs m ip b
  block-Agrees b lt =
      ap (λ w. (fs.data_block_start + w * 4096) % 2 ^ 32)
        (inode_word (ip + 4 + 4 * b) (omega arith) (omega arith))

  pub Clear-Agrees : Clear fs m' ip buf 1024
  Clear-Agrees = record {
    inode = f.off_buffer.inode;
    blocks = λ b lt. rw (block-Agrees b lt) (f.off_buffer.blocks b lt);
  }

  off_block :
      (a lo n k : ℕ) → (a + 4096 ≤ lo) ⊎ (lo + n ≤ a) → k < 4096 → (a + k < lo) ⊎ (lo + n ≤ a + k)
  off_block a lo n k h lt = omega arith

  pub byte-Agrees : (k : ℕ) → k < 1023 * 4096 → file_byte fs m' ip k ≡ file_byte fs m ip k
  byte-Agrees k lt =
      let b : ℕ = block_address fs m ip (k / 4096) in
      rw (block-Agrees (k / 4096) (omega arith)) (
        h (b + k % 4096)
          (off_block b buf 1024 (k % 4096) (f.off_buffer.blocks (k / 4096) (omega arith))
            (omega arith))
          (off_block b video 4000 (k % 4096) (f.off_screen.blocks (k / 4096) (omega arith))
            (omega arith)))

  pub delivered-bytes :
      (offset n i left : ℕ)
      → i + left ≡ n
      → offset + n ≤ 1023 * 4096
      → bytes_at (delivered fs m' ip offset buf n) (buf + i) left
        ≡ file_bytes fs m ip (offset + i) left
  delivered-bytes offset n i zero e big = refl
  delivered-bytes offset n i (suc left) e big =
      let here : delivered fs m' ip offset buf n (buf + i) ≡ file_byte fs m ip (offset + i) =
        placed-at m' buf n i (λ k. file_byte fs m' ip (offset + k)) (omega arith)
        ∙ byte-Agrees (offset + i) (omega arith) in
      let next : buf + i + 1 ≡ buf + (i + 1) = omega arith in
      let next' : offset + i + 1 ≡ offset + (i + 1) = omega arith in
      rw (here, next, next', delivered-bytes offset n (i + 1) left (omega arith) big) refl

-- What `keyboard_write` does with `left` more bytes: it prints those that are not zero.
pub write_keys-visible :
    (left : ℕ) (buf i : ℕ) (d : Display) (m : Mem)
    → InScreen d
    → (buf + i + left ≤ video) ⊎ (video + 4000 ≤ buf)
    → ((j : ℕ) → j < left → d.mem (buf + i + j) ≡ m (buf + i + j))
    → write_keys left buf i d ≡ (i + left, print_text (visible (bytes_at m (buf + i) left)) d)
unfolding write_keys print_text
write_keys-visible zero buf i d m v off same = ap (λ j. (j, d)) (omega arith)
write_keys-visible (suc left) buf i d m v off same =
    let c : ℕ = m (buf + i) in
    let d1 : Display = if c == 0 then d else putc c d in
    let v1 : InScreen d1 = elim (Bool-cases (c == 0)) [
      | inl e ↦ rw e v
      | inr e ↦ rw e (putc-InScreen c d v)
    ] in
    let kept : (j : ℕ) → j < left → d1.mem (buf + (i + 1) + j) ≡ m (buf + (i + 1) + j) = λ j lt.
      let shifted : buf + (i + 1) + j ≡ buf + i + (j + 1) = omega arith in
      let outside : d1.mem (buf + i + (j + 1)) ≡ d.mem (buf + i + (j + 1)) =
        elim (Bool-cases (c == 0)) [
          | inl e ↦ rw e refl
          | inr e ↦ rw e (putc-outside c d (buf + i + (j + 1)) v (omega arith))
        ] in
      rw shifted (outside ∙ same (j + 1) (omega arith)) in
    let here : d.mem (buf + i) ≡ c = rw (add-zero (buf + i)) at (same 0 (omega arith)) in
    let next : buf + i + 1 ≡ buf + (i + 1) = omega arith in
    let count : i + 1 + left ≡ i + suc left = omega arith in
    let shown : print_text (visible (bytes_at m (buf + (i + 1)) left)) d1
        ≡ print_text
            (if c == 0
              then visible (bytes_at m (buf + (i + 1)) left)
              else c ∷ visible (bytes_at m (buf + (i + 1)) left))
            d =
      elim (Bool-cases (c == 0)) [ inl e ↦ rw e refl | inr e ↦ rw e refl ] in
    rw (here, write_keys-visible left buf (i + 1) d1 m v1 (omega arith) kept, count, next, shown)
      refl
