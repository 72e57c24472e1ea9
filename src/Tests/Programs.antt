-- ===== src/Tests/Programs.antt =====
-- The theorems on the user programs and on the system calls' entry.
use chap_os.Common.{
  ℕ, ◌+◌, ◌*◌, ◌/◌, ◌%◌, ◌<◌, ◌≡◌, ◌≢◌, refl, arith, not, Bool, true, List, [], codes, length,
  get_or, ◌==◌, if◌then◌else◌, tested, tested_at, Mem, pos, none,
}
use Prim.Native.String.{String}
use chap_os.Text.{strlen, strcpy, strrev, itoa}
use chap_os.FileSys.{FileDesc, no_file_ops, stdin_ops, stdout_ops}
use chap_os.Process.{set_mem}
use chap_os.Process.Entry.{Env, Machine}
use chap_os.User.OnKernel.{kernel_calls}
use chap_os.User.Support.{ece391_strlen, ece391_strcpy, ece391_strrev, ece391_itoa}
use chap_os.User.Support.Agreement.{support_agrees}
use chap_os.User.Syserr.{
  err_neg_fd, err_big_fd, err_unopened, err_vidmap, err_stdin_out, err_syscall_num,
}
use chap_os.User.Syserr.Refusals.{IsLiteral, IsFresh, Returns, Anything}
use chap_os.User.Syserr.Passing.{error_tests_pass}
use chap_os.Pic.{sti}
use chap_os.Pic.Masks.{IsSynced, masked}
use chap_os.Segments.{
  SegDesc, ldt_descriptor, tss_descriptor, base, last_offset, access_byte, descriptors_describe,
}
use chap_os.Boot.{init_devices}
use chap_os.Boot.Startup.{init_devices-open_lines}
use chap_os.Screen.{print_text}
use chap_os.Screen.Printf.Same.{Same-refl}
use chap_os.FileSys.{get_file_size, file_ops}
use chap_os.Process.{on_io}
use chap_os.User.Programs.{cat_loop}
use chap_os.User.Cat.{visible, file_bytes, IsFile}
use chap_os.User.Cat.Whole.{Ended, cat_loop-Ended}
use chap_os.Tests.Files.{image-Clear}
use chap_os.Common.{inl}
use chap_os.Tests.{mounted, image, layout, kernel, process}
use chap_os.Tests.Processes.{silent, frame}

abbrev pub env : Env
env = record {
  devices = silent;
  uninit = 0;
  layout = layout;
  fuel = 60;
  frame = frame;
  local = 0x7f0000;
  entry = 0x7f0100;
  place = λ a. a;
  child = λ start k. none;
}

-- Where the literals of the tests lie.
abbrev lit : List ℕ → ℕ
lit t = 100 * (get_or t 4 0 + get_or t 5 0)

abbrev message : ℕ → String
message n =
    if n == 211
    then "err_neg_fd: PASS\n"
    else if n == 203
    then "err_big_fd: PASS\n"
    else if n == 227
    then "err_unopened: PASS\n"
    else if n == 223
    then "err_vidmap: PASS\n"
    else if n == 231
    then "err_stdin_out: PASS\n"
    else "err_syscall_num: PASS\n"

abbrev program : Mem
program a = get_or (codes (message (a / 100))) (a % 100) 0

abbrev opened_first : ℕ → FileDesc
opened_first i = record {
  fops_jmp_tb_ptr = if i == 0 then stdin_ops else if i == 1 then stdout_ops else no_file_ops;
  inode = 0;
  file_pos = 0;
  flags = if i == 0 then 1 else if i == 1 then 1 else 0;
}

abbrev pub started : Machine
started = record {
  kernel = record (set_mem program kernel) {
    pcbs = λ n. record (process n) { f_descs = opened_first };
  };
  reads = 0;
  clock = λ n. [];
  keys = λ n. [];
}

abbrev nonzero_at : ℕ → ℕ → Bool
nonzero_at s i = not (program (s + i) == 0)

nonzero_lem : (v : ℕ) → not (v == 0) ≡ true → v ≢ 0
nonzero_lem v e = ground arith

literal :
    (t : String)
    → program (lit (codes t) + length (codes t)) ≡ 0
    → tested (length (codes t)) (nonzero_at (lit (codes t))) ≡ true
    → length (codes t) < 60
    → IsLiteral 60 lit program t
literal t ends nonzero short = (
  record {
    ends = ends;
    nonzero = λ i lt.
        nonzero_lem (program (lit (codes t) + i))
          (tested_at (length (codes t)) (nonzero_at (lit (codes t))) i nonzero lt);
  },
  short,
)

started-IsFresh : IsFresh 60 lit started
unfolding tested
started-IsFresh = record {
  stdin_flags = refl;
  stdin = refl;
  stdout_flags = refl;
  stdout = refl;
  free = λ fd le lt. ground arith;
  pass_1 = literal "err_neg_fd: PASS\n" refl refl (omega arith);
  pass_2 = literal "err_big_fd: PASS\n" refl refl (omega arith);
  pass_5 = literal "err_unopened: PASS\n" refl refl (omega arith);
  pass_6 = literal "err_vidmap: PASS\n" refl refl (omega arith);
  pass_7 = literal "err_stdin_out: PASS\n" refl refl (omega arith);
  pass_8 = literal "err_syscall_num: PASS\n" refl refl (omega arith);
}

error_tests_pass_example :
    Returns Anything (pos 0) (err_neg_fd (kernel_calls env 7) 60 lit 5000 started)
    × Returns Anything (pos 0) (err_big_fd (kernel_calls env 7) 60 lit 5000 started)
    × Returns Anything (pos 0) (err_unopened (kernel_calls env 7) 60 lit 5000 started)
    × Returns Anything (pos 0) (err_vidmap (kernel_calls env 7) 60 lit started)
    × Returns Anything (pos 0) (err_stdin_out (kernel_calls env 7) 60 lit 5000 started)
    × Returns Anything (pos 0) (err_syscall_num (kernel_calls env 7) 60 lit started)
error_tests_pass_example = error_tests_pass env 7 60 lit 5000 started started-IsFresh

support_agrees_example :
    (ece391_strlen 9 image 300 ≡ strlen 9 image 300)
    × (ece391_strcpy 9 image 900 300 ≡ strcpy 9 image 900 300)
    × (ece391_strrev 9 image 300 ≡ strrev 9 image 300)
    × (ece391_itoa image 1234 900 10 ≡ itoa image 1234 900 10)
support_agrees_example = support_agrees 9 image 900 300 1234 10

-- The file "f" is open on descriptor 2, with interrupts on.
abbrev reading_first : ℕ → FileDesc
reading_first i = record {
  fops_jmp_tb_ptr = if i == 1 then stdout_ops else file_ops;
  inode = 1;
  file_pos = 0;
  flags = 1;
}

abbrev reader : Machine
reader = record started {
  kernel = on_io sti (record kernel { pcbs = λ n. record (process n) { f_descs = reading_first } });
}

f-IsFile : IsFile mounted image 1 300000
unfolding get_file_size
f-IsFile = record {
  known = omega arith;
  small = omega arith;
  off_buffer = image-Clear 300000 1024 (omega arith);
  off_screen = image-Clear 753664 4000 (omega arith);
  apart = inl (omega arith);
  somewhere = λ e. omega arith;
  header_buffer = inl (omega arith);
  header_screen = inl (omega arith);
}

cat_loop-Ended_example :
    Ended mounted image 1 300000 2 reader.kernel.console.display 5001
      (visible (file_bytes mounted image 73728 0 5001))
      (cat_loop (kernel_calls env 7) 60 lit 6 (pos 2) 300000 reader)
unfolding get_file_size print_text
cat_loop-Ended_example =
    cat_loop-Ended env 7 60 lit 6 1 300000 2 reader f-IsFile
      (record { column = omega arith; row = omega arith }) (omega arith)
      (record {
        mounted = refl;
        active = refl;
        table = refl;
        reads = refl;
        position = refl;
        out_active = refl;
        out_table = refl;
        running = refl;
        agrees = λ a out far. refl;
        shown = Same-refl 300000 1024 reader.kernel.console.display;
      })
      (omega arith)

-- The kernel before start-up: both controllers mask every line.
init_devices-open_lines_example :
    let k' = init_devices silent kernel in
    let io' = k'.console.display.io in
    (masked io' 3 ≡ 1) × IsSynced io' × (k'.console.buffer_index ≡ 0)
init_devices-open_lines_example = init_devices-open_lines silent kernel 3 refl refl (omega arith)

abbrev pub blank_desc : SegDesc
blank_desc = record {
  seg_lim_15_00 = 7;
  base_15_00 = 7;
  base_23_16 = 7;
  kind = 7;
  sys = 1;
  dpl = 3;
  present = 0;
  seg_lim_19_16 = 7;
  avail = 1;
  reserved = 1;
  opsize = 0;
  granularity = 1;
  base_31_24 = 7;
}

descriptors_describe_example :
    let ldt = ldt_descriptor 0x412345 79 blank_desc in
    let tss = tss_descriptor 0x412345 79 blank_desc in
    (base ldt ≡ 0x412345)
    × (last_offset ldt ≡ 79)
    × (base tss ≡ 0x412345)
    × (last_offset tss ≡ 79)
    × (ldt.granularity ≡ 0)
    × (tss.granularity ≡ 0)
    × (ldt.kind ≡ 2)
    × (tss.kind ≡ 9)
    × (ldt.present ≡ 1)
    × (tss.present ≡ 1)
    × (ldt.sys ≡ 0)
    × (tss.sys ≡ 0)
    × (ldt.dpl ≡ 0)
    × (tss.dpl ≡ 0)
    × (access_byte ldt ≡ 0x82)
    × (access_byte tss ≡ 0x89)
descriptors_describe_example =
    descriptors_describe 0x412345 79 blank_desc (omega arith) (omega arith)
