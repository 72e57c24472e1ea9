-- ===== src/Tests/Printing.antt =====
-- The theorems on `printf`, the interrupt descriptors, the exceptions and the timer.
use chap_os.Common.{
  ℕ, ◌+◌, ◌≡◌, refl, arith, inl, ◌==◌, ◌||◌, ◌&&◌, true, leb, ltb, if◌then◌else◌, List, [], ◌∷◌,
  ◌++◌, Mem,
}
use chap_os.Pic.{Devices}
use chap_os.Screen.{Display}
use chap_os.Idt.{Gate, Handlers, init_idt}
use chap_os.Idt.Exceptions.{exception, pushed, Reported, exception-Reported}
use chap_os.Process.{Kernel, set_mem}
use chap_os.Screen.Printf.Pieces.{bytes_at}
use chap_os.Tests.{kernel, layout}
use chap_os.Screen.Printf.{printf}
use chap_os.Screen.Printf.Pieces.{
  Piece, literal, hex_8, signed, width, IsUntouched, IsFormat, RendersAll,
}
use chap_os.Screen.Printf.Output.{printf-Output}
use chap_os.Screen.Printf.Progress.{Output}
use chap_os.Tests.{screen}

-- The format "%#x %d" at 500, and its arguments 184 and -5 at 600.
abbrev formats : Mem
formats a =
    if a == 500 || a == 504
    then b'%'
    else if a == 501
    then b'#'
    else if a == 502
    then b'x'
    else if a == 503
    then b' '
    else if a == 505
    then b'd'
    else if a == 600
    then 184
    else if a == 604
    then 251
    else if leb 605 a && ltb a 608
    then 255
    else 0

abbrev pieces : List Piece
pieces = hex_8 184 ∷ literal b' ' ∷ signed 4294967291 ∷ []

abbrev printing : Display
printing = record screen { mem = formats }

untouched : (a : ℕ) → leb a 699 ≡ true → IsUntouched 700 a
untouched a h = record { off_screen = ground arith; off_buffer = ground arith }

is_format : IsFormat 60 700 formats 500 600 pieces
is_format = (
  ((untouched 500 refl, refl), (untouched 501 refl, refl)),
  (untouched 502 refl, refl),
  (
    untouched 600 refl,
    untouched 601 refl,
    untouched 602 refl,
    untouched 603 refl,
    refl,
    omega arith,
  ),
  (
    (λ e. omega arith),
    (λ e. omega arith),
    (untouched 503 refl, refl),
    (
      ((untouched 504 refl, refl), (untouched 505 refl, refl)),
      (
        untouched 604 refl,
        untouched 605 refl,
        untouched 606 refl,
        untouched 607 refl,
        refl,
        omega arith,
      ),
      (untouched 506 refl, refl),
    ),
  ),
)

printf-Output_example :
    Output 700 printing (RendersAll formats pieces) (width pieces) (printf 60 700 500 600 printing)
printf-Output_example =
    printf-Output pieces 60 700 500 600 printing (inl (omega arith))
      (record { column = omega arith; row = omega arith }) is_format (omega arith)

abbrev empty_gate : Gate
empty_gate = record {
  offset_15_00 = 0x5678;
  seg_selector = 0;
  reserved4 = 0;
  reserved3 = 0;
  reserved2 = 0;
  reserved1 = 0;
  size = 0;
  reserved0 = 0;
  dpl = 0;
  present = 0;
  offset_31_16 = 0x1234;
}

-- Handlers 256 bytes apart.
abbrev handlers : Handlers
handlers = record {
  pit_handler = 0x40000;
  keyboard_handler = 0x40100;
  rtc_handler = 0x40200;
  main_syscall = 0x40300;
  generic_handler = 0x40400;
  exception_de = 0x40500;
  exception_db = 0x40600;
  exception_nmi = 0x40700;
  exception_bp = 0x40800;
  exception_of = 0x40900;
  exception_br = 0x40a00;
  exception_ud = 0x40b00;
  exception_nm = 0x40c00;
  exception_df = 0x40d00;
  exception_co = 0x40e00;
  exception_ts = 0x40f00;
  exception_np = 0x41000;
  exception_ss = 0x41100;
  exception_gp = 0x41200;
  exception_pf = 0x41300;
  exception_mf = 0x41400;
  exception_ac = 0x41500;
  exception_mc = 0x41600;
  exception_xm = 0x41700;
  exception_ve = 0x41800;
  exception_sx = 0x41900;
}

abbrev entry_15 : Gate
entry_15 = init_idt handlers empty_gate empty_gate empty_gate (λ i. empty_gate) 15

-- The format "%s\n" at 500, and the message "f" at 300.
abbrev messages : Mem
messages a =
    if a == 300
    then b'f'
    else if a == 500
    then b'%'
    else if a == 501
    then b's'
    else if a == 502
    then b'\n'
    else 0

abbrev failing : Kernel
failing = set_mem messages kernel

abbrev quiet_devices : Devices
quiet_devices writes port = 0

exception-Reported_example :
    Reported layout 700
      (pushed 600 300 failing)
      (λ cs. cs ≡ bytes_at (pushed 600 300 failing).mem 300 1 ++ b'\n' ∷ [])
      failing
      (exception quiet_devices 0 60 700 500 600 300 failing)
exception-Reported_example =
    exception-Reported quiet_devices 0 60 700 (inl (omega arith)) 500 600 300 1 layout failing
      (ground arith) (omega arith) (record { column = omega arith; row = omega arith })
      (
        ((untouched 500 refl, refl), (untouched 501 refl, refl)),
        (
          untouched 600 refl,
          untouched 601 refl,
          untouched 602 refl,
          untouched 603 refl,
          refl,
          omega arith,
        ),
        record { ends = refl; nonzero = λ i lt. ground arith },
        (λ i le. untouched (300 + i) (ground arith)),
        inl (omega arith),
        omega arith,
        (
          (λ e. omega arith),
          (λ e. omega arith),
          (untouched 502 refl, refl),
          (untouched 503 refl, refl),
        ),
      )
      (omega arith)
