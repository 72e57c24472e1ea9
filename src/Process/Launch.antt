-- ===== src/Process/Launch.antt =====
-- `execute` and `halt` of system_call.c. The stack addresses of the local arrays, and the stack and
-- base pointers, are arguments.
use chap_os.Common.{
  ℕ, zero, suc, ◌+◌, ◌-◌, ◌*◌, ◌/◌, ◌%◌, ◌^◌, not, Option, none, some, List, [], ◌∷◌, ◌==◌,
  if◌then◌else◌, Mem, store, ℤ, pos, negsuc, minus_one, load32,
}
use chap_os.Pic.{Devices, cli}
use chap_os.Paging.{Layout, map_user_img_page}
use chap_os.Paging.Translate.{translate}
use chap_os.Text.{strcpy}
use chap_os.FileSys.{
  stdin_ops, stdout_ops, no_file_ops, FileDesc, Pcb, set_desc, read_dentry_by_name, read_data,
  get_file_size, is_zero,
}
use chap_os.Keyboard.{on_display}
use chap_os.Screen.{print_text}
use chap_os.Process.{
  Kernel, mem_of, on_console, set_mem, on_io, get_pcb_ptr, set_pcb, desc_of, put_desc, arg_buff_at,
  flag_active, flag_inactive, max_files, page_8mb, stack_8kb, gen_new_proc_id,
}
use chap_os.Process.Files.{close, entry_inode}
use chap_os.Process.Command.{again, break_off, return_failure, scan_command, initial_scan}

abbrev pub ascii_elf : ℕ
ascii_elf = 0x7F454C46

abbrev pub min_read_elf_size : ℕ
min_read_elf_size = 4

abbrev pub entry_ptw_start : ℕ
entry_ptw_start = 24

abbrev pub prog_image_vaddr : ℕ
prog_image_vaddr = 0x08048000

abbrev pub kernel_ds : ℕ
kernel_ds = 0x18

-- The addresses of the local variables of `execute`, and its stack and base pointer.
pub record Frame : Type 0 where
  pub file_name_command : ℕ
  pub arg_command : ℕ
  pub f_content_buf : ℕ
  pub f_dentry : ℕ
  pub esp : ℕ
  pub ebp : ℕ

-- Where control goes: back to the caller with a value, to user code at its entry point, to the frame
-- of the `execute` that started a process, with a value, or into `execute ("shell")`.
pub data Flow : Type 0 where
  returned : ℤ → Flow
  enter_user : ℕ → Flow
  resume_frame : (value kbp ksp : ℕ) → Flow
  execute_shell : Flow

abbrev pub print_message : List ℕ → Kernel → Kernel
print_message t k = on_console (on_display (print_text t)) k

abbrev see_arg_space : List ℕ
see_arg_space =
    b'S' ∷ b'e' ∷ b'e' ∷ b' ' ∷ b'a' ∷ b'r' ∷ b'g' ∷ b' ' ∷ b'S' ∷ b'p' ∷ b'a' ∷ b'c' ∷ b'e' ∷ 10
    ∷ []

abbrev too_many_processes : List ℕ
too_many_processes =
    b'T' ∷ b'o' ∷ b'o' ∷ b' ' ∷ b'm' ∷ b'a' ∷ b'n' ∷ b'y' ∷ b' ' ∷ b'p' ∷ b'r' ∷ b'o' ∷ b'c' ∷ b'e'
    ∷ b's' ∷ b's' ∷ b'e' ∷ b's' ∷ 10 ∷ []

-- `f_content`: four bytes, the first one uppermost.
abbrev pub content_word : Mem → ℕ → ℕ
content_word m p = ((m p * 2 ^ 8 + m (p + 1)) * 2 ^ 8 + m (p + 2)) * 2 ^ 8 % 2 ^ 32 + m (p + 3)

-- The block of the kernel stack that `esp` lies in, as `get_pcb_ptr` masks it.
abbrev pub slot_of : ℕ → ℕ
slot_of esp = (page_8mb - 1 - esp) / stack_8kb

-- `tss.esp0 = esp0`, which user code's next trap loads.
abbrev pub enter_stack : ℕ → Kernel → Kernel
enter_stack esp0 k = record k { tss_esp0 = esp0; stack_slot = slot_of esp0 }

-- `proc_PCB`, from `proc_num` on, less `arg_buff`.
unfoldable pub fill_pcb : Frame → ℕ → Kernel → Kernel
fill_pcb f id k =
    let stdin : FileDesc = record ((k.pcbs id).f_descs 0) {
      flags = flag_active;
      fops_jmp_tb_ptr = stdin_ops;
    } in
    let stdout : FileDesc = record ((k.pcbs id).f_descs 1) {
      flags = flag_active;
      fops_jmp_tb_ptr = stdout_ops;
    } in
    let own : Pcb = record (set_desc 1 stdout (set_desc 0 stdin (k.pcbs id))) {
      proc_num = id;
      ksp = f.esp;
      kbp = f.ebp;
    } in
    let parent : Pcb = if id == 0 then own else k.pcbs (id - 1) in
    set_pcb id
      (record own {
        parent_proc_num = if id == 0 then id else parent.proc_num;
        parent_ksp = parent.ksp;
        parent_kbp = parent.kbp;
      })
      (record k { active_proc_num = id })

module _ (l : Layout) (fuel : ℕ) (f : Frame) where
  -- From `mapUserImgPage (new_proc_id)` on. `none` where the image's address is not mapped.
  unfoldable pub start_process : ℕ → ℕ → ℕ → Kernel → Option (Flow × Kernel)
  start_process inode entry_point id k =
      let k1 = on_console (λ c. record c { paging = (map_user_img_page (pos id) c.paging).1 }) k in
      elim (translate l k1.console.paging prog_image_vaddr) [
        | none ↦ none
        | some image ↦
            let len = get_file_size k1.fs inode (mem_of k1) in
            let k2 = set_mem (read_data k1.fs inode 0 image.physical len (mem_of k1)).1 k1 in
            let k3 = fill_pcb f id k2 in
            elim (strcpy fuel (mem_of k3) (arg_buff_at id) f.arg_command) [
              | none ↦ none
              | some m ↦ some (
                enter_user entry_point,
                enter_stack (page_8mb - stack_8kb * id - 4)
                    (record (set_mem m k3) { tss_ss0 = kernel_ds }),
              )
            ]
      ]

  -- From the look-up of the file on.
  unfoldable pub execute_file : Kernel → Option (Flow × Kernel)
  execute_file k =
      let (missing, m) = read_dentry_by_name k.fs f.file_name_command f.f_dentry (mem_of k) in
      let k1 = set_mem m k in
      let inode = entry_inode f.f_dentry k1 in
      let k2 =
        set_mem (read_data k1.fs inode 0 f.f_content_buf min_read_elf_size (mem_of k1)).1 k1 in
      let k3 =
        set_mem
          (read_data k2.fs inode entry_ptw_start f.f_content_buf min_read_elf_size (mem_of k2)).1
          k2 in
      let (new_proc_id, k4) = gen_new_proc_id k3 in
      if not (is_zero missing)
      then some (returned minus_one, k1)
      else if not (content_word (mem_of k2) f.f_content_buf == ascii_elf)
      then some (returned minus_one, print_message (b' ' ∷ 10 ∷ []) k2)
      else (elim new_proc_id [
        | pos id ↦ start_process inode (load32 (mem_of k3) f.f_content_buf) id k4
        | negsuc n ↦ some (returned minus_one, print_message too_many_processes k4)
      ])

  unfoldable pub execute : ℕ → Kernel → Option (Flow × Kernel)
  execute command k =
      let k1 = on_io cli k in
      if command == 0
      then some (returned minus_one, k1)
      else (elim (scan_command command f.file_name_command f.arg_command fuel
          (initial_scan command f.file_name_command f.arg_command (mem_of k1))) [
            | none ↦ none
            | some (again s) ↦ execute_file (set_mem s.mem k1)
            | some (break_off s) ↦ execute_file (print_message see_arg_space (set_mem s.mem k1))
            | some (return_failure s) ↦ some (returned minus_one, set_mem s.mem k1)
          ])

-- The value that the parent sees: 1 becomes 256.
abbrev pub exit_value : ℕ → ℕ
exit_value status = if status % 2 ^ 8 == 1 then 256 else status % 2 ^ 8

module _ (devices : Devices) (uninit : ℕ) where
  -- The closing loop of `halt`, for `left` more descriptors from `i` on.
  unfoldable pub close_all : (left : ℕ) → ℕ → Kernel → Kernel
  close_all zero i k = k
  close_all (suc left) i k =
      let k1 =
        if (desc_of i k).flags == flag_active then (close devices uninit (pos i) k).1 else k in
      close_all left (i + 1)
        (put_desc i (record (desc_of i k1) { fops_jmp_tb_ptr = no_file_ops }) k1)

  unfoldable pub halt : ℕ → Kernel → Flow × Kernel
  halt status k =
      let prev = k.active_proc_num in
      let k1 = on_io cli k in
      let k2 =
        close_all max_files 0
          (record k1 { proc_id_flags = store k1.proc_id_flags prev flag_inactive }) in
      let parent = (get_pcb_ptr k2).parent_proc_num in
      let k3 =
        on_console (λ c. record c { paging = (map_user_img_page (pos parent) c.paging).1 }) k2 in
      let k4 = record k3 {
        active_proc_num = parent;
        tss_esp0 = page_8mb - stack_8kb * parent - 4;
      } in
      if prev == 0 then (execute_shell, k4) else (
        resume_frame (exit_value status) (get_pcb_ptr k4).kbp (get_pcb_ptr k4).ksp,
        record k4 { stack_slot = slot_of (get_pcb_ptr k4).ksp },
      )
