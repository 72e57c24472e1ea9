-- ===== src/Tests/Processes.antt =====
-- The theorems on process numbers, descriptors and `halt`, on the kernel with three processes.
use chap_os.Common.{
  ℕ, ◌-◌, ◌*◌, ◌≡◌, ◌≢◌, ◌⊎◌, refl, arith, inl, inr, some, store, load32, pos, minus_one,
}
use chap_os.Pic.{Devices}
use chap_os.FileSys.{read_dentry_by_name}
use chap_os.FileSys.Lookup.{read_dentry_by_name-first}
use chap_os.Process.{Kernel, desc_of, put_desc, set_mem}
use chap_os.Process.Files.{open_call, close}
use chap_os.Process.Launch.{Frame, fill_pcb, halt, execute_shell}
use chap_os.Process.Descriptors.{opened, open_call-lowest}
use chap_os.Process.Closing.{close-opened}
use chap_os.Process.Ending.{ended, halt-frees}
use chap_os.Process.{mem_of, on_io, getargs, vidmap}
use chap_os.Process.Launch.{returned, execute}
use chap_os.Process.Parsing.{OneWord}
use chap_os.Process.Arguments.{getargs-copied, vidmap-shown}
use chap_os.Process.Starting.{loaded, with_image, start_process-enters, parsed, execute-missing}
use chap_os.Pic.{cli}
use chap_os.Paging.Translate.{translate}
use chap_os.FileSys.{dir_entry}
use chap_os.Text.Length.{IsText}
use chap_os.Text.Copy.{padded}
use chap_os.Text.Compare.{Agree}
use chap_os.Common.{ℕ, ◌+◌, ◌-◌, ◌<◌, ◌∙◌, true, Mem, copied, tested_at, within}
use chap_os.Tests.{image, image-IsBytes, mounted, layout, kernel}
use chap_os.Tests.Machine.{layout-IsLaidOut}
use chap_os.FileSys.{get_file_size}
use chap_os.FileSys.Data.{delivered, file_byte}
use chap_os.FileSys.Read.{read_data-delivered}
use chap_os.Common.{ap, placed-other, ◌≤◌, ◌*◌}
use chap_os.Process.{arg_buff_at}
use chap_os.Process.Launch.{start_process, enter_stack, enter_user}
use chap_os.Tests.Files.{image-Clear, other_name, other_names, differ, f_same, dot_other}

-- Every register reads as zero.
abbrev pub silent : Devices
silent writes port = 0

found_f : (read_dentry_by_name mounted 300 1000 image).0 ≡ pos 0
found_f =
    (read_dentry_by_name-first mounted 300 1000 1 0 image image-IsBytes (omega arith) f_same
      dot_other (inr (omega arith)) (inl (omega arith))).0

open_call-lowest_example :
    let m = (read_dentry_by_name mounted 300 1000 image).1 in
    let (r, k') = open_call silent 0 1000 300 kernel in
    (r ≡ pos 3)
    × (desc_of 3 k' ≡ opened (load32 m 1032) (load32 m 1036))
    × ((◌≡◌ {A = ℕ} 2 3) ⊎ (desc_of 2 k' ≡ desc_of 2 kernel))
open_call-lowest_example =
    open_call-lowest silent 0 1000 300 3 2 kernel (ground arith) (ground arith) found_f
      (omega arith) (omega arith) (ground arith) (λ i u v. ground arith)

abbrev opened_kernel : Kernel
opened_kernel = put_desc 5 (opened 2 1) kernel

close-opened_example :
    let (r, k') = close silent 0 (pos 5) opened_kernel in
    (r ≡ pos 0)
    × ((desc_of 5 k').flags ≡ 0)
    × ((◌≡◌ {A = ℕ} 2 5) ⊎ (desc_of 2 k' ≡ desc_of 2 opened_kernel))
    × ((close silent 0 (pos 5) k').0 ≡ minus_one)
close-opened_example = close-opened silent 0 5 2 2 1 opened_kernel (omega arith) (omega arith) refl

abbrev pub frame : Frame
frame = record {
  file_name_command = 0x7f0000;
  arg_command = 0x7f0100;
  f_content_buf = 0x7f0200;
  f_dentry = 0x7f0300;
  esp = 0x7fffe0;
  ebp = 0x7fffe8;
}

halt-frees_example :
    let (flow, k') = halt silent 0 1 kernel in
    (k'.proc_id_flags ≡ store kernel.proc_id_flags 2 0)
    × ((k'.pcbs 2).f_descs 2 ≡ ended 2 (desc_of 2 kernel))
    × ((◌≢◌ {A = ℕ} 2 0) ⊎ (flow ≡ execute_shell))
halt-frees_example = halt-frees silent 0 1 2 kernel (omega arith)

-- The argument's array of process 2 holds 128 bytes before the first zero byte.
arg_IsText : IsText image 8364160 128
arg_IsText = record { ends = refl; nonzero = λ i lt. ground arith }

getargs-copied_example :
    getargs 129 100 (pos 128) kernel ≡ some (pos 0, set_mem (copied image 100 8364160 129) kernel)
getargs-copied_example =
    getargs-copied 129 100 128 (pos 128) kernel (ground arith) arg_IsText (inl (omega arith))
      (omega arith)

vidmap-shown_example :
    let (result, k') = vidmap layout 0x8000010 5000 kernel in
    (result ≡ pos 0x8400000)
    × (load32 (mem_of k') 5000 ≡ 0x8400000)
    × (translate layout k'.console.paging 0x8400004
        ≡ some (record { physical = 0xB8004; user = true }))
vidmap-shown_example =
    vidmap-shown layout 0x8000010 5000 4 kernel layout-IsLaidOut (omega arith) (omega arith)
      (omega arith)

-- The command "x", which names no file.
x_OneWord : OneWord image 400 0 1
x_OneWord = record {
  front = λ j lt. absurd (omega arith);
  some_name = omega arith;
  name = λ j lo hi. ground arith;
  ended = refl;
}

parsed_small : (m : Mem) (a : ℕ) → ((r : ℕ) → m r < 256) → parsed m 400 0 1 frame a < 256
parsed_small m a small = ground (arith, small a, small (400 + (0 + (a - 0x7f0000))))

parsed_low : (m : Mem) (a : ℕ) → a < 0x7f0000 → parsed m 400 0 1 frame a ≡ m a
parsed_low m a lt = ground arith

x_unknown :
    (j : ℕ) → j < 63 → ¬ Agree (parsed image 400 0 1 frame) 0x7f0000 (dir_entry mounted j) 32
unfolding padded
x_unknown j lt same =
    let other : other_name j ≡ true = tested_at 63 other_name j other_names lt in
    let first : b'x' ≡ parsed image 400 0 1 frame (dir_entry mounted j) = same 0 (omega arith) in
    differ (image (dir_entry mounted j)) other
      (first ∙ parsed_low image (dir_entry mounted j) (omega arith))

execute-missing_example :
    (execute layout 4 frame 400 kernel
      ≡ some (returned minus_one, set_mem (parsed image 400 0 1 frame) (on_io cli kernel)))
    × ((a : ℕ)
        → (parsed image 400 0 1 frame a ≡ image a)
          ⊎ (within 0x7f0100 100 a ≡ true)
          ⊎ (within 0x7f0000 10 a ≡ true))
execute-missing_example =
    execute-missing layout 4 frame 400 0 1 kernel (ground arith) x_OneWord (inl (omega arith))
      (inl (omega arith)) (omega arith) (λ a. parsed_small image a image-IsBytes) x_unknown

-- The argument's array of the caller's frame, with 128 bytes before the first zero byte.
abbrev frame_with_arg : Frame
frame_with_arg = record frame { arg_command = 0x7f0180 }

loaded_bytes : loaded 1 3 kernel ≡ delivered mounted image 73728 0 21266432 5000
unfolding get_file_size
loaded_bytes =
    ap (λ r. r.1)
      (read_data-delivered mounted 1 0 21266432 5000 image (omega arith) (omega arith) (omega arith)
        (image-Clear 21266432 5000 (omega arith)))

arg_byte : (i : ℕ) → i ≤ 128 → loaded 1 3 kernel (0x7f0180 + i) ≡ image (0x7f0180 + i)
arg_byte i le = rw loaded_bytes (
    placed-other image 21266432 5000 (0x7f0180 + i) (λ k. file_byte mounted image 73728 (0 + k))
      (inl (omega arith)))

arg_nonzero : (i : ℕ) → i < 128 → image (0x7f0180 + i) ≢ 0
arg_nonzero i lt = ground arith

frame_IsText : IsText (loaded 1 3 kernel) 0x7f0180 128
frame_IsText = record {
  ends = arg_byte 128 (omega arith);
  nonzero = λ i lt. rw (arg_byte i (omega arith)) (arg_nonzero i lt);
}

start_process-enters_example :
    let k' =
      enter_stack
        (0x800000 - 0x2000 * 3 - 4)
        (record (set_mem
          (copied (loaded 1 3 kernel) (arg_buff_at 3) 0x7f0180 129)
          (fill_pcb frame_with_arg 3 (set_mem (loaded 1 3 kernel) (with_image 3 kernel)))) {
            tss_ss0 = 0x18;
          }) in
    (start_process layout 129 frame_with_arg 1 0x8048054 3 kernel ≡ some (enter_user 0x8048054, k'))
    × (translate layout k'.console.paging 0x8048000
        ≡ some (record { physical = 21266432; user = true }))
    × (k'.active_proc_num ≡ 3)
    × (k'.stack_slot ≡ 3)
start_process-enters_example =
    start_process-enters layout 129 frame_with_arg 1 0x8048054 3 128 kernel (omega arith)
      frame_IsText (inr (omega arith)) (omega arith)
