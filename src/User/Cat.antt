-- ===== src/User/Cat.antt =====
-- What `cat` shows of a file: the file's bytes as the file system delivers them, and the characters
-- that the keyboard driver's `write` prints of them.
pub mod Agreeing
pub mod Round
pub mod Entered
pub mod Whole
use chap_os.Common.{
  ℕ, zero, suc, ◌+◌, ◌-◌, ◌*◌, ◌%◌, ◌≤◌, ◌<◌, ◌≡◌, ◌≢◌, ◌⊎◌, true, List, [], ◌∷◌, ◌++◌, ◌==◌,
  if◌then◌else◌, Mem,
}
use chap_os.Screen.{Display, video, print_text}
use chap_os.Screen.Cursor.{InScreen}
use chap_os.Screen.Printf.Same.{Same, IsBuffer}
use chap_os.FileSys.{FileSys, file_ops, stdout_ops, num_inodes, get_file_size, inode_address}
use chap_os.FileSys.Data.{file_byte, Clear}
use chap_os.Process.{Kernel, mem_of, desc_of}

-- `keyboard_write` leaves zero bytes out.
abbrev pub visible : List ℕ → List ℕ
visible [] = []
visible (c ∷ cs) = let rest = visible cs in if c == 0 then rest else c ∷ rest

-- The `n` bytes of the file from `offset` on.
abbrev pub file_bytes : FileSys → Mem → ℕ → (offset n : ℕ) → List ℕ
file_bytes fs m p offset zero = []
file_bytes fs m p offset (suc n) = file_byte fs m p offset ∷ file_bytes fs m p (offset + 1) n

-- How many bytes of a file of `size` bytes `cat` gets, with reads of 1024 bytes: the byte after the
-- file too, unless the last read ends with the file.
abbrev pub shown_size : ℕ → ℕ
shown_size size = if size % 1024 == 0 then size else size + 1

-- The file system's memory, the file's inode `inode`, and the place of the buffer.
pub record IsFile (fs : FileSys) (m : Mem) (inode buf : ℕ) : Type 0 where
  pub known : inode < num_inodes fs m
  pub small : get_file_size fs inode m < 1023 * 4096
  pub off_buffer : Clear fs m (inode_address fs inode) buf 1024
  pub off_screen : Clear fs m (inode_address fs inode) video 4000
  pub apart : IsBuffer buf 1024
  pub somewhere : buf ≢ 0
  pub header_buffer : (fs.boot_block_ptr + 8 ≤ buf) ⊎ (buf + 1024 ≤ fs.boot_block_ptr)
  pub header_screen : (fs.boot_block_ptr + 8 ≤ video) ⊎ (video + 4000 ≤ fs.boot_block_ptr)

-- Memories that agree off the buffer and the screen.
abbrev pub Agrees : ℕ → Mem → Mem → Type 0
Agrees buf m m' =
    (a : ℕ) → (a < buf) ⊎ (buf + 1024 ≤ a) → (a < video) ⊎ (video + 4000 ≤ a) → m' a ≡ m a

-- A program that has the file open on `fd`, the position at `p`, and has printed `cs`: the memory is
-- `m` off the buffer and the screen, and the display is `d` with these characters printed.
pub record IsReading (fs : FileSys) (m : Mem) (inode buf fd : ℕ) (d : Display) (p : ℕ) (cs : List ℕ)
    (k : Kernel) : Type 0 where
  pub mounted : k.fs ≡ fs
  pub active : (desc_of fd k).flags ≡ 1
  pub table : (desc_of fd k).fops_jmp_tb_ptr ≡ file_ops
  pub reads : (desc_of fd k).inode ≡ inode
  pub position : (desc_of fd k).file_pos ≡ p
  pub out_active : (desc_of 1 k).flags ≡ 1
  pub out_table : (desc_of 1 k).fops_jmp_tb_ptr ≡ stdout_ops
  pub running : k.console.display.io.interrupts ≡ true
  pub agrees : Agrees buf m (mem_of k)
  pub shown : Same buf 1024 (print_text cs d) (k.console.display)
