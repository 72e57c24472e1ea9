-- ===== src/Tests.antt =====
-- Concrete states and inputs, and the theorems applied to them.
pub mod Files
pub mod Processes
pub mod Commands
pub mod Typing
pub mod Machine
pub mod Printing
pub mod Programs
pub mod Booting
pub mod Opening
use chap_os.Common.{ℕ, ◌+◌, ◌*◌, ◌%◌, ◌<◌, arith, leb, ◌==◌, if◌then◌else◌, Mem, true, false}
use chap_os.Pic.{initial_io}
use chap_os.Paging.{Paging, Layout}
use chap_os.Screen.{Display}
use chap_os.FileSys.{FileSys, FileDesc, Pcb, no_file_ops, stdin_ops}
use chap_os.Keyboard.{Term, Console}
use chap_os.Process.{Kernel}
use chap_os.Text.Compare.{IsBytes}

-- A file system of two entries at 64 kB: the directory "." and the file "f" of 5000 bytes, whose
-- inode is number 1 and whose blocks are 1 and 0. The texts "f" and "x" lie at 300 and 400.
abbrev pub image : Mem
image a =
    if a == 300
    then b'f'
    else if a == 400
    then b'x'
    else if a == 65540
    then 2
    else if a == 65600
    then b'.'
    else if a == 65632
    then 1
    else if a == 65664
    then b'f'
    else if a == 65696
    then 2
    else if a == 65700
    then 1
    else if a == 73728
    then 136
    else if a == 73729
    then 19
    else if a == 73732
    then 1
    else if leb 77824 a
    then a % 256
    else 0

pub image-IsBytes : IsBytes image
image-IsBytes a = ground arith

abbrev pub mounted : FileSys
mounted = record {
  file_sys_start = 65536;
  boot_block_ptr = 65536;
  inode_start = 69632;
  data_block_start = 77824;
}

abbrev pub layout : Layout
layout = record { page_table_at = 0x1000; user_page_table_at = 0x2000 }

abbrev pub no_paging : Paging
no_paging = record {
  page_dir = λ i. 0;
  page_table = λ i. 0;
  user_page_table = λ i. 0;
  stale = false;
}

abbrev pub screen : Display
screen = record { screen_x = 79; screen_y = 24; mem = image; io = initial_io }

abbrev pub idle_term : Term
idle_term = record {
  term_id = 0;
  active_flag = 0;
  x = 0;
  y = 0;
  saved_index = 0;
  is_in_use_flag = 0;
  term_vid_mem = 0;
}

-- The line "ok" has been typed on terminal 0.
abbrev pub idle_console : Console
idle_console = record {
  keyboard_mode = 2;
  ctrl_flag = 0;
  alt_flag = 0;
  buffers = λ t i. if i == 0 then b'o' else if i == 1 then b'k' else 0;
  buffer_index = 2;
  return_flag = 0;
  cur_term_id = 0;
  terminals = λ t. idle_term;
  paging = no_paging;
  display = screen;
}

-- Descriptors 0, 1 and 2 are active; 3 reads the file "f" from byte 4090 on, 4 lists the directory.
abbrev pub descriptors : ℕ → FileDesc
descriptors i = record {
  fops_jmp_tb_ptr = no_file_ops;
  inode = 1;
  file_pos = if i == 3 then 4090 else if i == 4 then 1 else if i == 5 then 2 else 0;
  flags = if leb i 2 then 1 else 0;
}

abbrev pub process : ℕ → Pcb
process n = record {
  f_descs = descriptors;
  proc_num = n;
  ksp = 0x7ffff0;
  kbp = 0x7ffff8;
  parent_proc_num = 0;
  parent_ksp = 0;
  parent_kbp = 0;
}

-- Processes 0 to 2 are in use, and number 2 is active.
abbrev pub kernel : Kernel
kernel = record {
  fs = mounted;
  console = idle_console;
  interrupt_occurred = 0;
  pcbs = process;
  stack_slot = 2;
  proc_id_flags = λ i. if leb i 2 then 1 else 0;
  active_proc_num = 2;
  tss_ss0 = 0x18;
  tss_esp0 = 0;
}
