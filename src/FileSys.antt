-- ===== src/FileSys.antt =====
-- chapOS/student-distrib/file_sys_module.c and the types of file_sys_module.h: the read-only file
-- system. The image is part of memory, `boot_block_ptr` the address of its boot block; `uint32_t`
-- sums keep their wrap-around. `get_pcb_ptr` gives the process control block of the kernel stack in
-- use, which an operation takes and returns. The stack addresses of local buffers are arguments.
pub mod Data
pub mod Read
pub mod Append
pub mod Lookup
pub mod Listing
use chap_os.Common.{
  ℕ, zero, suc, ◌+◌, ◌-◌, ◌*◌, ◌/◌, ◌%◌, ◌^◌, Bool, false, Option, none, some, leb, ltb, ◌==◌,
  if◌then◌else◌, Mem, store, load32, ℤ, pos, negsuc, minus_one,
}
use chap_os.Block.{store32, memcpy}
use chap_os.Text.{strncmp, strncpy, itoa}
use chap_os.Screen.{Display, putc, puts}

abbrev pub file_name_size : ℕ
file_name_size = 32

abbrev pub max_dentry_num : ℕ
max_dentry_num = 63

abbrev pub data_block_size : ℕ
data_block_size = 4096

abbrev pub max_file_size : ℕ
max_file_size = 32

-- The static variables of the file.
pub record FileSys : Type 0 where
  pub file_sys_start : ℕ
  pub boot_block_ptr : ℕ
  pub inode_start : ℕ
  pub data_block_start : ℕ

-- The tables of system_call.c that a descriptor can point to.
pub data FileOps : Type 0 where
  rtc_ops file_ops dir_ops stdin_ops stdout_ops no_file_ops : FileOps

pub record FileDesc : Type 0 where
  pub fops_jmp_tb_ptr : FileOps
  pub inode : ℕ
  pub file_pos : ℕ
  pub flags : ℕ

-- `pcb_t` less its two byte arrays, `arg_buff` and `f_names`, which are read and written where they
-- lie in memory, and less `active_term_number`, which is never used.
pub record Pcb : Type 0 where
  pub f_descs : ℕ → FileDesc
  pub proc_num : ℕ
  pub ksp : ℕ
  pub kbp : ℕ
  pub parent_proc_num : ℕ
  pub parent_ksp : ℕ
  pub parent_kbp : ℕ

-- `f_descs[fd] = v`
abbrev pub set_desc : ℕ → FileDesc → Pcb → Pcb
set_desc fd v p = record p { f_descs = λ i. if i == fd then v else p.f_descs i }

-- `f_descs[fd].file_pos = v`
abbrev pub set_file_pos : ℕ → ℕ → Pcb → Pcb
set_file_pos fd v p = set_desc fd (record (p.f_descs fd) { file_pos = v }) p

-- `boot_block_ptr->num_inodes`
abbrev pub num_inodes : FileSys → Mem → ℕ
num_inodes fs m = load32 m (fs.boot_block_ptr + 4)

-- `&boot_block_ptr->dir_entries[i]`: the name is at offset 0, the type at 32, the inode at 36.
abbrev pub dir_entry : FileSys → ℕ → ℕ
dir_entry fs i = fs.boot_block_ptr + 64 + 64 * i

-- `n == 0`
abbrev pub is_zero : ℤ → Bool
is_zero (pos n) = n == 0
is_zero (negsuc n) = false

-- `printf("%d\n", value)` with its buffer `conv_buf`.
unfoldable pub print_decimal : ℕ → ℕ → Display → Option Display
print_decimal conv_buf value d =
    let converted : Option Mem =
      if leb (2 ^ 31) value
      then itoa (store d.mem conv_buf b'-') (2 ^ 32 - value) (conv_buf + 1) 10
      else itoa d.mem value conv_buf 10 in
    elim converted [
      | none ↦ none
      | some m ↦ elim (puts 36 conv_buf (record d { mem = m })) [
        | none ↦ none
        | some (n, d') ↦ some (putc b'\n' d')
      ]
    ]

unfoldable pub file_sys_init : ℕ → ℕ → Display → Option (FileSys × Display)
file_sys_init conv_buf mod_start d = elim (print_decimal conv_buf mod_start d) [
  | none ↦ none
  | some d' ↦
      let fs : FileSys = record {
        file_sys_start = mod_start;
        boot_block_ptr = mod_start;
        inode_start = (mod_start + data_block_size) % 2 ^ 32;
        data_block_start =
            (mod_start + (1 + load32 d'.mem (mod_start + 4)) * data_block_size) % 2 ^ 32;
      } in
      some (fs, d')
]

-- The name at `name`, and the type and inode number of entry `entry`, into `*dentry`.
unfoldable pub fill_dentry : Mem → ℕ → ℕ → ℕ → Mem
fill_dentry m name entry dentry =
    let m1 = strncpy m dentry name file_name_size in
    let m2 = store32 m1 (dentry + 32) (load32 m1 (entry + 32)) in
    store32 m2 (dentry + 36) (load32 m2 (entry + 36))

-- The loop of `read_dentry_by_name`, for `left` more entries from `i` on.
unfoldable pub search_dentries : (left : ℕ) → FileSys → ℕ → ℕ → ℕ → Mem → ℤ × Mem
search_dentries zero fs fname dentry i m = (minus_one, m)
search_dentries (suc left) fs fname dentry i m =
    let rest = search_dentries left fs fname dentry (i + 1) m in
    if is_zero (strncmp m fname (dir_entry fs i) file_name_size)
    then (pos 0, fill_dentry m fname (dir_entry fs i) dentry)
    else rest

unfoldable pub read_dentry_by_name : FileSys → ℕ → ℕ → Mem → ℤ × Mem
read_dentry_by_name fs fname dentry m = search_dentries max_dentry_num fs fname dentry 0 m

unfoldable pub read_dentry_by_index : FileSys → ℕ → ℕ → Mem → ℤ × Mem
read_dentry_by_index fs index dentry m =
    if leb max_dentry_num index
    then (minus_one, m)
    else if m (dir_entry fs index) == 0
    then (minus_one, m)
    else (pos 0, fill_dentry m (dir_entry fs index) (dir_entry fs index) dentry)

-- `inode_start + inode * DATA_BLOCK_SIZE`, the inode's address: its length is the first word, its
-- block numbers are the words from offset 4 on.
abbrev pub inode_address : FileSys → ℕ → ℕ
inode_address fs inode = (fs.inode_start + inode * data_block_size) % 2 ^ 32

-- `data_block_start + (inode_data_ptr->data_block[b]) * DATA_BLOCK_SIZE`
abbrev pub block_address : FileSys → Mem → ℕ → ℕ → ℕ
block_address fs m inode_ptr b =
    (fs.data_block_start + load32 m (inode_ptr + 4 + 4 * b) * data_block_size) % 2 ^ 32

-- The loop of `read_data`, for `left` more values of `i` below `length`.
unfoldable pub read_bytes : (left : ℕ) → FileSys → ℕ → ℕ → ℕ → ℕ → ℕ → ℕ → ℕ → Mem → ℤ × Mem
read_bytes zero fs inode_ptr offset buf index loc block i m = (pos i, m)
read_bytes (suc left) fs inode_ptr offset buf index loc block i m =
    let next_index = if loc == data_block_size then index + 1 else index in
    let next_loc = if loc == data_block_size then 0 else loc in
    let next_block =
      if loc == data_block_size then block_address fs m inode_ptr (index + 1) else block in
    let rest =
      read_bytes left fs inode_ptr offset buf next_index (next_loc + 1) next_block (i + 1)
        (store m (buf + i) (m (next_block + next_loc))) in
    if leb ((i + offset) % 2 ^ 32) (load32 m inode_ptr) then rest else (pos i, m)

unfoldable pub read_data : FileSys → ℕ → ℕ → ℕ → ℕ → Mem → ℤ × Mem
read_data fs inode offset buf len m =
    let inode_ptr = inode_address fs inode in
    if leb (num_inodes fs m) inode
    then (minus_one, m)
    else if leb (load32 m inode_ptr) offset
    then (pos 0, m)
    else read_bytes len fs inode_ptr offset buf (offset / data_block_size)
        (offset % data_block_size) (block_address fs m inode_ptr (offset / data_block_size)) 0 m

-- `(uint32_t) n`
abbrev pub to_uint32 : ℤ → ℕ
to_uint32 (pos n) = n % 2 ^ 32
to_uint32 (negsuc n) = 2 ^ 32 - 1 - n % 2 ^ 32

unfoldable pub file_read : FileSys → ℕ → ℕ → ℤ → Pcb → Mem → ℤ × Pcb × Mem
file_read fs fd buf nbytes p m =
    let (result, m') =
      read_data fs (p.f_descs fd).inode (p.f_descs fd).file_pos buf (to_uint32 nbytes) m in
    (result, set_file_pos fd (((p.f_descs fd).file_pos + to_uint32 result) % 2 ^ 32) p, m')

-- `dir_entry` is the address of the local dentry.
unfoldable pub dir_read : FileSys → ℕ → ℕ → ℕ → ℤ → Pcb → Mem → ℤ × Pcb × Mem
dir_read fs local fd buf nbytes p m =
    let (test, m') = read_dentry_by_index fs (p.f_descs fd).file_pos local m in
    if is_zero test
    then (
      pos file_name_size,
      set_file_pos fd (((p.f_descs fd).file_pos + 1) % 2 ^ 32) p,
      memcpy m' buf local file_name_size,
    )
    else (pos 0, set_file_pos fd 0 p, m')

unfoldable pub get_file_size : FileSys → ℕ → Mem → ℕ
get_file_size fs inode m = load32 m (inode_address fs inode)

abbrev pub file_sys_open : ℕ → ℤ
file_sys_open filename = pos 0

abbrev pub file_sys_close : ℕ → ℤ
file_sys_close fd = pos 0

abbrev pub file_sys_write : ℕ → ℕ → ℤ → ℤ
file_sys_write fd buf nbytes = minus_one

abbrev pub file_open : ℕ → ℤ
file_open filename = pos 0

abbrev pub file_close : ℕ → ℤ
file_close fd = pos 0

abbrev pub file_write : ℕ → ℕ → ℤ → ℤ
file_write fd buf nbytes = minus_one

abbrev pub dir_open : ℕ → ℤ
dir_open filename = pos 0

abbrev pub dir_close : ℕ → ℤ
dir_close fd = pos 0

abbrev pub dir_write : ℕ → ℕ → ℤ → ℤ
dir_write fd buf nbytes = minus_one
