-- ===== src/Process.antt =====
-- chapOS/student-distrib/system_call.c: processes, their descriptors and the system calls. `Kernel`
-- joins the state of the file system, the console, the clock and the process table. A pointer is an
-- address, 0 is `NULL`; buffers are named by the address at which they lie in memory.
pub mod Files
pub mod Command
pub mod Launch
pub mod Entry
pub mod Slots
pub mod Descriptors
pub mod Closing
pub mod Dispatch
pub mod Scanning
pub mod Parsing
pub mod Ending
pub mod Resuming
pub mod Arguments
pub mod Starting
use chap_os.Common.{
  ℕ, zero, suc, ◌+◌, ◌-◌, ◌*◌, ◌/◌, ◌%◌, ◌^◌, ◌||◌, not, Bool, true, false, Option, none, some,
  List, leb, ltb, ◌==◌, if◌then◌else◌, Mem, store, ℤ, pos, negsuc, minus_one,
}
use chap_os.Pic.{Io}
use chap_os.Paging.{Layout, new_user_vid_page}
use chap_os.Text.{strlen, strcpy}
use chap_os.Rtc.{Rtc}
use chap_os.FileSys.{FileSys, FileOps, FileDesc, Pcb, set_desc, to_uint32}
use chap_os.Block.{store32}
use chap_os.Keyboard.{Console}

abbrev pub max_processes : ℕ
max_processes = 6

abbrev pub max_files : ℕ
max_files = 8

abbrev pub min_open_file : ℕ
min_open_file = 2

abbrev pub max_open_file : ℕ
max_open_file = 8

abbrev pub page_8mb : ℕ
page_8mb = 0x800000

abbrev pub stack_8kb : ℕ
stack_8kb = 0x2000

abbrev pub user_img_start : ℕ
user_img_start = 0x8000000

abbrev pub user_img_end : ℕ
user_img_end = 0x8400000

abbrev pub flag_active : ℕ
flag_active = 1

abbrev pub flag_inactive : ℕ
flag_inactive = 0

abbrev pub file_type_dir : ℕ
file_type_dir = 1

abbrev pub file_type_file : ℕ
file_type_file = 2

-- `pcbs i` is the block at `PAGE_8MB - STACK_8KB * (i + 1)`. `stack_slot` names the kernel stack
-- that the stack pointer lies in, and so the block that `get_pcb_ptr` finds.
pub record Kernel : Type 0 where
  pub fs : FileSys
  pub console : Console
  pub interrupt_occurred : ℕ
  pub pcbs : ℕ → Pcb
  pub stack_slot : ℕ
  pub proc_id_flags : ℕ → ℕ
  pub active_proc_num : ℕ
  pub tss_ss0 : ℕ
  pub tss_esp0 : ℕ

abbrev pub mem_of : Kernel → Mem
mem_of k = k.console.display.mem

abbrev pub on_console : (Console → Console) → Kernel → Kernel
on_console f k = record k { console = f k.console }

abbrev pub set_mem : Mem → Kernel → Kernel
set_mem m k = on_console (λ c. record c { display = record (c.display) { mem = m } }) k

abbrev pub on_io : (Io → Io) → Kernel → Kernel
on_io f k = on_console (λ c. record c { display = record (c.display) { io = f c.display.io } }) k

-- The clock driver's state, and the kernel once the driver has changed it.
abbrev pub rtc_of : Kernel → Rtc
rtc_of k = record { io = k.console.display.io; interrupt_occurred = k.interrupt_occurred }

abbrev pub set_rtc : Rtc → Kernel → Kernel
set_rtc r k = record (on_io (λ io. r.io) k) { interrupt_occurred = r.interrupt_occurred }

abbrev pub get_pcb_ptr : Kernel → Pcb
get_pcb_ptr k = k.pcbs k.stack_slot

abbrev pub set_pcb : ℕ → Pcb → Kernel → Kernel
set_pcb slot p k = record k { pcbs = λ i. if i == slot then p else k.pcbs i }

abbrev pub set_current : Pcb → Kernel → Kernel
set_current p k = set_pcb k.stack_slot p k

-- The descriptor `fd` of the process that calls, and its change.
abbrev pub desc_of : ℕ → Kernel → FileDesc
desc_of fd k = (get_pcb_ptr k).f_descs fd

abbrev pub put_desc : ℕ → FileDesc → Kernel → Kernel
put_desc fd v k = set_current (set_desc fd v (get_pcb_ptr k)) k

-- Where the arrays `arg_buff` and `f_names[i]` of a block lie.
abbrev pub arg_buff_at : ℕ → ℕ
arg_buff_at slot = page_8mb - stack_8kb * (slot + 1) + 128

abbrev pub f_name_at : ℕ → ℕ → ℕ
f_name_at slot i = page_8mb - stack_8kb * (slot + 1) + 228 + 32 * i

-- The loop of `gen_new_proc_id`, for `left` more values of `i`.
unfoldable pub find_proc_id : (left : ℕ) → ℕ → Kernel → ℤ × Kernel
find_proc_id zero i k = (minus_one, k)
find_proc_id (suc left) i k =
    let rest = find_proc_id left (i + 1) k in
    if k.proc_id_flags i == 0
    then (pos i, record k { proc_id_flags = store k.proc_id_flags i 1 })
    else rest

unfoldable pub gen_new_proc_id : Kernel → ℤ × Kernel
gen_new_proc_id k = find_proc_id max_processes 0 k

abbrev pub do_nothing : ℤ
do_nothing = minus_one

abbrev pub set_handler : ℕ → ℕ → ℤ
set_handler signum handler_address = minus_one

abbrev pub sigreturn : ℤ
sigreturn = minus_one

-- `(uint32_t) nbytes < len`
abbrev pub shorter : ℤ → ℕ → Bool
shorter nbytes len = ltb (to_uint32 nbytes) len

-- `nbytes` is compared as an unsigned word.
unfoldable pub getargs : ℕ → ℕ → ℤ → Kernel → Option (ℤ × Kernel)
getargs fuel buf nbytes k =
    if buf == 0
    then some (minus_one, k)
    else elim (strlen fuel (mem_of k) (arg_buff_at k.active_proc_num)) [
      | none ↦ none
      | some len ↦
          if shorter nbytes len
          then some (minus_one, k)
          else elim (strcpy fuel (mem_of k) buf (arg_buff_at k.active_proc_num)) [
            | none ↦ none
            | some m ↦ some (pos 0, set_mem m k)
          ]
    ]

-- `screen_start` is compared as an address of the user's, and the word that it points to is written
-- at `word_at`, where it lies in memory.
module _ (l : Layout) where
  unfoldable pub vidmap : ℕ → ℕ → Kernel → ℤ × Kernel
  vidmap screen_start word_at k =
      if ltb screen_start user_img_start || leb user_img_end screen_start then (minus_one, k) else (
        pos user_img_end,
        on_console
            (λ c. record c {
              paging = (new_user_vid_page l user_img_end c.paging).1;
              display = record (c.display) { mem = store32 c.display.mem word_at user_img_end };
            })
            k,
      )
