-- ===== src/Process/Starting.antt =====
-- `execute`: a command that names no file, and the start of a process whose file was found.
use chap_os.Common.{
  ℕ, ◌+◌, ◌-◌, ◌<◌, ◌≡◌, ◌≢◌, refl, arith, false, some, ◌==◌, Mem, filled, placed, true, minus_one,
}
use chap_os.Pic.{cli}
use chap_os.Paging.{Layout, map_user_img_page}
use chap_os.Paging.Translate.{translate}
use chap_os.Paging.Maps.{translate-map_user_img_page}
use chap_os.Text.Length.{IsText}
use chap_os.Text.Copy.{strcpy-copied}
use chap_os.FileSys.{read_data, get_file_size}
use chap_os.Process.{on_console, arg_buff_at}
use chap_os.Process.Launch.{start_process, fill_pcb, enter_stack, enter_user, slot_of, Flow}
use chap_os.Common.{
  Bool-cases, within, leb, if◌then◌else◌, inl, inr, suc, ◌*◌, ◌^◌, ◌≤◌, ◌⊎◌, copied, pos, ap,
  Option, none,
}
use chap_os.Text.{strcpy}
use chap_os.Text.Compare.{IsBytes, Agree}
use chap_os.FileSys.{dir_entry}
use chap_os.FileSys.Lookup.{read_dentry_by_name-missing}
use chap_os.Process.{Kernel, mem_of, set_mem, on_io}
use chap_os.Process.Launch.{Frame, returned, execute, execute_file}
use chap_os.Process.Parsing.{OneWord, ClearOf, scan_command-OneWord}

-- Memory once a command of one word has been parsed.
abbrev pub parsed : Mem → ℕ → ℕ → ℕ → Frame → Mem
parsed m command s e f =
    placed (filled (filled m f.file_name_command 10 0) f.arg_command 100 0) f.file_name_command
      (e - s) (λ k. m (command + (s + k)))

-- The bytes that the parser's result differs in.
parsed-outside :
    (m : Mem) (command s e a : ℕ) (f : Frame)
    → (parsed m command s e f a ≡ m a)
      ⊎ (within f.arg_command 100 a ≡ true)
      ⊎ (within f.file_name_command (if leb (e - s) 10 then 10 else e - s) a ≡ true)
parsed-outside m command s e a f = elim (Bool-cases (within f.arg_command 100 a)) [
  | inl x ↦ inr (inl x)
  | inr x ↦
      elim (Bool-cases (within f.file_name_command (if leb (e - s) 10 then 10 else e - s) a)) [
        | inl y ↦ inr (inr y)
        | inr y ↦ inl (ground arith)
      ]
]

-- A command of one word that names no file, and that lies apart from the two arrays: with fuel for its
-- length `execute` returns -1 to its caller, with interrupts off; no process number is taken, no
-- process block and no mapping changed. Of memory the 100 bytes of the argument's array and the 10 of
-- the name's have been cleared, and the word has been stored from the name's first byte on. Every byte
-- that is not as before is one of the 100, one of the 10, or one that a word of more than 10
-- characters has been stored to past the name's array.
pub execute-missing :
    (l : Layout) (fuel : ℕ) (f : Frame) (command s e : ℕ) (k : Kernel)
    → command ≢ 0
    → OneWord (mem_of k) command s e
    → ClearOf command e f.file_name_command (10 + e)
    → ClearOf command e f.arg_command 100
    → e + 2 < fuel
    → IsBytes (parsed (mem_of k) command s e f)
    → ((j : ℕ)
        → j < 63
        → ¬ Agree (parsed (mem_of k) command s e f) f.file_name_command (dir_entry k.fs j) 32)
    → (execute l fuel f command k
        ≡ some (returned minus_one, set_mem (parsed (mem_of k) command s e f) (on_io cli k)))
      × ((a : ℕ)
          → (parsed (mem_of k) command s e f a ≡ mem_of k a)
            ⊎ (within f.arg_command 100 a ≡ true)
            ⊎ (within f.file_name_command (if leb (e - s) 10 then 10 else e - s) a ≡ true))
unfolding execute execute_file
execute-missing l fuel f command s e k real w far_name far_arg enough b unknown =
    let m : Mem = parsed (mem_of k) command s e f in
    let given : (command == 0) ≡ false = ground arith in
    let run : execute l fuel f command k ≡ some (returned minus_one, set_mem m (on_io cli k)) =
      rw
        (
          given,
          scan_command-OneWord command f.file_name_command f.arg_command s e fuel (mem_of k) w
              far_name far_arg enough,
          read_dentry_by_name-missing k.fs f.file_name_command f.f_dentry m b unknown,
        )
        refl in
    (run, λ a. parsed-outside (mem_of k) command s e a f)

-- `mapUserImgPage (id)`
abbrev pub with_image : ℕ → Kernel → Kernel
with_image id k = on_console (λ c. record c { paging = (map_user_img_page (pos id) c.paging).1 }) k

-- Memory once the file `inode` has been loaded for process `id`: its bytes from the first one on, at the
-- place in physical memory that 0x8048000 stands for in that process.
abbrev pub loaded : ℕ → ℕ → Kernel → Mem
loaded inode id k =
    (read_data k.fs inode 0 ((id + 2) * 2 ^ 22 + 0x48000) (get_file_size k.fs inode (mem_of k))
      (mem_of k)).1

-- Once the file is found to be a program and a process number from 0 to 5 is taken, starting the process
-- ends in user code at the entry point. The file is loaded into the image of this process, and then
-- the argument's `n` bytes and its zero byte are copied to the process's own block; the image is what
-- 0x8048000 stands for, the process is the active one, and its system calls run on its own stack.
pub start_process-enters :
    (l : Layout) (fuel : ℕ) (f : Frame) (inode entry_point id n : ℕ) (k : Kernel)
    → id < 6
    → IsText (loaded inode id k) f.arg_command n
    → (arg_buff_at id ≤ f.arg_command) ⊎ (f.arg_command + n < arg_buff_at id)
    → n < fuel
    → let k' =
        enter_stack
          (0x800000 - 0x2000 * id - 4)
          (record (set_mem
            (copied (loaded inode id k) (arg_buff_at id) f.arg_command (suc n))
            (fill_pcb f id (set_mem (loaded inode id k) (with_image id k)))) { tss_ss0 = 0x18 }) in
      (start_process l fuel f inode entry_point id k ≡ some (enter_user entry_point, k'))
      × (translate l k'.console.paging 0x8048000
          ≡ some (record { physical = (id + 2) * 2 ^ 22 + 0x48000; user = true }))
      × (k'.active_proc_num ≡ id)
      × (k'.stack_slot ≡ id)
unfolding start_process fill_pcb
start_process-enters l fuel f inode entry_point id n k lt t apart enough =
    let image = (translate-map_user_img_page l k.console.paging id 0x8048000 (omega arith)).2 in
    let own_stack : slot_of (0x800000 - 0x2000 * id - 4) ≡ id = omega arith in
    let m : Mem = loaded inode id k in
    let k3 : Kernel = fill_pcb f id (set_mem m (with_image id k)) in
    let copy : strcpy fuel m (arg_buff_at id) f.arg_command
        ≡ some (copied m (arg_buff_at id) f.arg_command (suc n)) =
      strcpy-copied fuel m (arg_buff_at id) f.arg_command n t apart enough in
    let run =
      ap
        (λ (r : Option Mem). elim r as (λ x. Option (Flow × Kernel)) [
          | none ↦ none
          | some m' ↦ some (
            enter_user entry_point,
            enter_stack (0x800000 - 0x2000 * id - 4) (record (set_mem m' k3) { tss_ss0 = 0x18 }),
          )
        ])
        copy in
    (rw (image, start_process) run, image, refl, own_stack)
