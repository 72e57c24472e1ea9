-- ===== src/Process/Files.antt =====
-- `open`, `read`, `write` and `close` of system_call.c, with the tables of operations that they call
-- through. `devices` and `uninit` are those of the clock's driver.
use chap_os.Common.{
  ℕ, zero, suc, ◌+◌, ◌||◌, ◌&&◌, ◌-◌, not, Bool, false, Option, none, some, List, leb, ◌==◌,
  if◌then◌else◌, ℤ, pos, negsuc, minus_one, load32,
}
use chap_os.Pic.{Devices}
use chap_os.Paging.{Layout}
use chap_os.Text.{strncpy}
use chap_os.Rtc.{rtc_open, rtc_close, rtc_write, rtc_read}
use chap_os.FileSys.{
  FileOps, rtc_ops, file_ops, dir_ops, stdin_ops, stdout_ops, no_file_ops, read_dentry_by_name,
  file_read, file_write, file_open, file_close, dir_read, dir_write, dir_open, dir_close,
  max_file_size, is_zero,
}
use chap_os.Keyboard.{close_keyboard, keyboard_write}
use chap_os.Keyboard.Handler.{keyboard_read}
use chap_os.Process.{
  Kernel, mem_of, on_console, set_mem, rtc_of, set_rtc, get_pcb_ptr, set_current, desc_of, put_desc,
  f_name_at, flag_active, flag_inactive, file_type_dir, file_type_file, min_open_file,
  max_open_file, do_nothing,
}

-- The search of `open` for a free descriptor, for `left` more descriptors from `i` on.
unfoldable pub find_slot : (left : ℕ) → ℕ → Kernel → Option ℕ
find_slot zero i k = none
find_slot (suc left) i k =
    let rest = find_slot left (i + 1) k in
    if not ((desc_of i k).flags == flag_active) then some i else rest

-- `f_descs[i].fops_jmp_tb_ptr = ops` and `f_descs[i].inode = inode`
abbrev pub set_kind : ℕ → FileOps → ℕ → Kernel → Kernel
set_kind i ops inode k =
    put_desc i (record (desc_of i k) { fops_jmp_tb_ptr = ops; inode = inode }) k

-- The words of the dentry that `read_dentry_by_name` fills in at `entry`.
abbrev pub entry_type : ℕ → Kernel → ℕ
entry_type entry k = load32 (mem_of k) (entry + 32)

abbrev pub entry_inode : ℕ → Kernel → ℕ
entry_inode entry k = load32 (mem_of k) (entry + 36)

-- `check_dentry == -1`, on the two results of `read_dentry_by_name`.
abbrev pub is_minus_one : ℤ → Bool
is_minus_one (pos n) = false
is_minus_one (negsuc n) = n == 0

-- A descriptor that `read`, `write` and `close` may use.
abbrev pub is_open : ℕ → Kernel → Bool
is_open fd k = not (leb max_open_file fd) && (desc_of fd k).flags == flag_active

module _ (devices : Devices) (uninit : ℕ) where
  -- The part of `open` after a descriptor was found, on its type and inode number.
  unfoldable pub open_at : ℕ → ℕ → ℕ → ℕ → Kernel → ℤ × Kernel
  open_at filename file_type inode_num i k =
      let k1 = put_desc i (record (desc_of i k) { flags = flag_active; file_pos = 0 }) k in
      if file_type == file_type_dir
      then (if is_zero (dir_open filename)
          then (pos i, set_kind i dir_ops 0 k1)
          else (minus_one, k1))
      else if file_type == file_type_file
      then (if is_zero (file_open filename)
          then (let k2 = set_kind i file_ops inode_num k1 in
              (
                pos i,
                set_mem (strncpy (mem_of k2) (f_name_at k.stack_slot i) filename max_file_size) k2,
              ))
          else (minus_one, k1))
      else (let (result, rtc) = rtc_open devices uninit (rtc_of k1) in
          let k2 = set_rtc rtc k1 in
          if is_zero result then (pos i, set_kind i rtc_ops 0 k2) else (minus_one, k2))

  -- `open`. `entry` is the address of the local dentry.
  unfoldable pub open_call : ℕ → ℕ → Kernel → ℤ × Kernel
  open_call entry filename k =
      if filename == 0
      then (minus_one, k)
      else if mem_of k filename == 0
      then (minus_one, k)
      else (let (check, m) = read_dentry_by_name k.fs filename entry (mem_of k) in
          let k1 = set_mem m k in
          if is_minus_one check
          then (minus_one, k1)
          else (elim (find_slot (max_open_file - min_open_file) min_open_file k1) [
            | none ↦ (minus_one, k1)
            | some i ↦ open_at filename (entry_type entry k1) (entry_inode entry k1) i k1
          ]))

  unfoldable pub close_ops : FileOps → ℕ → Kernel → ℤ × Kernel
  close_ops rtc_ops fd k = let (r, rtc) = rtc_close devices uninit (rtc_of k) in (r, set_rtc rtc k)
  close_ops file_ops fd k = (file_close fd, k)
  close_ops dir_ops fd k = (dir_close fd, k)
  close_ops stdin_ops fd k = let (r, c) = close_keyboard k.console in (r, on_console (λ _. c) k)
  close_ops stdout_ops fd k = let (r, c) = close_keyboard k.console in (r, on_console (λ _. c) k)
  close_ops no_file_ops fd k = (do_nothing, k)

  unfoldable pub close : ℤ → Kernel → ℤ × Kernel
  close (negsuc n) k = (minus_one, k)
  close (pos fd) k =
      if leb max_open_file fd
      then (minus_one, k)
      else if fd == 0 || fd == 1
      then (minus_one, k)
      else if not ((desc_of fd k).flags == flag_active)
      then (minus_one, k)
      else close_ops (desc_of fd k).fops_jmp_tb_ptr fd
          (put_desc fd (record (desc_of fd k) { flags = flag_inactive }) k)

  unfoldable pub write_ops : FileOps → ℕ → ℕ → ℤ → Kernel → ℤ × Kernel
  write_ops rtc_ops fd buf nbytes k =
      let (r, rtc) = rtc_write devices uninit (some (load32 (mem_of k) buf)) nbytes (rtc_of k) in
      (r, set_rtc rtc k)
  write_ops file_ops fd buf nbytes k = (file_write fd buf nbytes, k)
  write_ops dir_ops fd buf nbytes k = (dir_write fd buf nbytes, k)
  write_ops stdin_ops fd buf nbytes k = (do_nothing, k)
  write_ops stdout_ops fd buf nbytes k =
      let (r, c) = keyboard_write buf nbytes k.console in (r, on_console (λ _. c) k)
  write_ops no_file_ops fd buf nbytes k = (do_nothing, k)

  unfoldable pub write : ℤ → ℕ → ℤ → Kernel → ℤ × Kernel
  write (negsuc n) buf nbytes k = (minus_one, k)
  write (pos fd) buf nbytes k =
      if buf == 0 || leb max_open_file fd
      then (minus_one, k)
      else if not ((desc_of fd k).flags == flag_active)
      then (minus_one, k)
      else write_ops (desc_of fd k).fops_jmp_tb_ptr fd buf nbytes k

-- The clock's interrupts and the scan codes that come while a read waits; `local` is the address of
-- the dentry of `dir_read`.
module _ (l : Layout) (events : List Bool) (keys : List ℕ) (local : ℕ) where
  unfoldable pub read_ops : FileOps → ℕ → ℕ → ℤ → Kernel → Option (ℤ × Kernel)
  read_ops rtc_ops fd buf nbytes k = elim (rtc_read events (rtc_of k)) [
    | none ↦ none
    | some (r, rtc) ↦ some (r, set_rtc rtc k)
  ]
  read_ops file_ops fd buf nbytes k =
      let (r, p, m) = file_read k.fs fd buf nbytes (get_pcb_ptr k) (mem_of k) in
      some (r, set_current p (set_mem m k))
  read_ops dir_ops fd buf nbytes k =
      let (r, p, m) = dir_read k.fs local fd buf nbytes (get_pcb_ptr k) (mem_of k) in
      some (r, set_current p (set_mem m k))
  read_ops stdin_ops fd buf nbytes k = elim (keyboard_read l keys buf nbytes k.console) [
    | none ↦ none
    | some (r, c) ↦ some (r, on_console (λ _. c) k)
  ]
  read_ops stdout_ops fd buf nbytes k = some (do_nothing, k)
  read_ops no_file_ops fd buf nbytes k = some (do_nothing, k)

  unfoldable pub read : ℤ → ℕ → ℤ → Kernel → Option (ℤ × Kernel)
  read (negsuc n) buf nbytes k = some (minus_one, k)
  read (pos fd) buf nbytes k =
      if buf == 0 || leb max_open_file fd
      then some (minus_one, k)
      else if not ((desc_of fd k).flags == flag_active)
      then some (minus_one, k)
      else read_ops (desc_of fd k).fops_jmp_tb_ptr fd buf nbytes k
