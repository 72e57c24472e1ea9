-- ===== src/Screen/Printf.antt =====
-- `printf` of chapOS/student-distrib/lib.c. Its buffer `conv_buf` lies at `conv`, and its arguments
-- are the words from `esp` on. The fuel bounds the characters of the format that are read, and those
-- of each text that is printed; without enough of it the result is `none`.
pub mod Pieces
pub mod Numbers
pub mod Same
pub mod Convert
pub mod Progress
pub mod Specifiers
pub mod Output
use chap_os.Common.{
  ℕ, zero, suc, ◌+◌, ◌-◌, ◌%◌, ◌^◌, Option, none, some, leb, ◌==◌, if◌then◌else◌, ◌>>=◌, Mem, store,
  load32,
}
use chap_os.Text.{itoa, strlen}
use chap_os.Screen.{Display, putc, puts}

abbrev pub with_mem : Mem → Display → Display
with_mem m d = record d { mem = m }

-- `puts` where its result is not used.
abbrev pub put_string : ℕ → ℕ → Display → Option Display
put_string fuel s d = puts fuel s d >>= λ r. some r.1

-- `while(i < 8) { conv_buf[i] = '0'; i++; }`, for `left` more rounds from `i` on.
unfoldable pub fill_zeros : (left : ℕ) → ℕ → ℕ → Mem → Mem
fill_zeros zero i conv m = m
fill_zeros (suc left) i conv m = fill_zeros left (i + 1) conv (store m (conv + i) b'0')

-- `%x`
unfoldable pub print_hex : ℕ → ℕ → ℕ → Display → Option Display
print_hex fuel conv value d = itoa d.mem value conv 16 >>= λ m. put_string fuel conv (with_mem m d)

-- `%#x`
unfoldable pub print_hex_8 : ℕ → ℕ → ℕ → Display → Option Display
print_hex_8 fuel conv value d = itoa d.mem value (conv + 8) 16 >>= λ m.
    (strlen fuel m (conv + 8) >>= λ starting_index.
    put_string fuel (conv + starting_index)
      (with_mem (fill_zeros (8 - starting_index) starting_index conv m) d))

-- `%u`
unfoldable pub print_unsigned : ℕ → ℕ → ℕ → Display → Option Display
print_unsigned fuel conv value d =
    itoa d.mem value conv 10 >>= λ m. put_string fuel conv (with_mem m d)

-- `%d`: a word from 2 ^ 31 on is a negative number.
unfoldable pub print_signed : ℕ → ℕ → ℕ → Display → Option Display
print_signed fuel conv value d =
    (if leb (2 ^ 31) value
      then itoa (store d.mem conv b'-') (2 ^ 32 - value) (conv + 1) 10
      else itoa d.mem value conv 10)
    >>= λ m. put_string fuel conv (with_mem m d)

-- What is left to do after a conversion: the last character read, the next argument, the display.
pub record Cursor : Type 0 where
  pub buf : ℕ
  pub esp : ℕ
  pub shown : Display

abbrev pub argument : ℕ → ℕ → Option Display → Option Cursor
argument buf esp r = r >>= λ d. some (record { buf = buf; esp = esp + 4; shown = d })

-- The conversion whose specifier is at `buf`; `alternate` says that a `#` was read.
unfoldable pub convert : (left : ℕ) → ℕ → ℕ → ℕ → ℕ → ℕ → Display → Option Cursor
convert zero fuel conv alternate buf esp d = none
convert (suc left) fuel conv alternate buf esp d =
    let after_alternate = convert left fuel conv 1 (buf + 1) esp d in
    let c = d.mem buf in
    let value = load32 d.mem esp in
    if c == b'%'
    then some (record { buf = buf; esp = esp; shown = putc b'%' d })
    else if c == b'#'
    then after_alternate
    else if c == b'x'
    then argument buf esp
        (if alternate == 0 then print_hex fuel conv value d else print_hex_8 fuel conv value d)
    else if c == b'u'
    then argument buf esp (print_unsigned fuel conv value d)
    else if c == b'd'
    then argument buf esp (print_signed fuel conv value d)
    else if c == b'c'
    then argument buf esp (some (putc (value % 2 ^ 8) d))
    else if c == b's'
    then argument buf esp (put_string fuel value d)
    else some (record { buf = buf; esp = esp; shown = d })

-- The loop over the format: the address of its zero byte, and the display.
unfoldable pub printf_from : (left : ℕ) → ℕ → ℕ → ℕ → ℕ → Display → Option (ℕ × Display)
printf_from zero fuel conv buf esp d = none
printf_from (suc left) fuel conv buf esp d =
    let converted = convert left fuel conv 0 (buf + 1) esp d >>= λ r.
    printf_from left fuel conv (r.buf + 1) r.esp r.shown in
    let literal = printf_from left fuel conv (buf + 1) esp (putc (d.mem buf) d) in
    if d.mem buf == 0 then some (buf, d) else if d.mem buf == b'%' then converted else literal

-- `printf`, with its first argument after the format at `esp`.
unfoldable pub printf : ℕ → ℕ → ℕ → ℕ → Display → Option (ℕ × Display)
printf fuel conv format esp d =
    printf_from fuel fuel conv format esp d >>= λ r. some (r.0 - format, r.1)
