-- ===== src/Keyboard.antt =====
-- chapOS/student-distrib/keyboard.c and terminal.h: the keyboard driver with its three terminals.
-- The state holds the driver's static variables, the terminals, the paging and the display.
-- `execute ("shell")` and `halt (0)` leave the driver for another process: a handler says so by its
-- `Control`. A read or write through an unmapped address is `none`.
mod Scancodes
pub mod Terminal
pub mod Handler
pub mod Modes
pub mod Line
pub mod Switching
pub mod Keys
pub mod Shown
pub mod Invariant
use chap_os.Common.{
  ℕ, zero, suc, ◌+◌, ◌-◌, ◌*◌, ◌%◌, ◌^◌, ◌&&◌, ◌||◌, not, Bool, true, false, Option, none, some,
  List, [], ◌∷◌, ltb, leb, ◌==◌, if◌then◌else◌, Mem, store, ℤ, pos, negsuc, minus_one,
}
use chap_os.Pic.{Io, enable_irq, disable_irq, send_eoi}
use chap_os.Paging.{Paging}
use chap_os.Screen.{
  Display, video, num_cols, attrib, putc, clear, move_curser, set_coord_x, set_coord_y,
}
unfoldable pub use Scancodes.{scancode_array}

-- `term_t`; `cur_proc_num` is never used.
pub record Term : Type 0 where
  pub term_id : ℕ
  pub active_flag : ℕ
  pub x : ℕ
  pub y : ℕ
  pub saved_index : ℕ
  pub is_in_use_flag : ℕ
  pub term_vid_mem : ℕ

-- `buffers t` is the array `buffKeyPtr[t]`, of which the source has 128 bytes.
pub record Console : Type 0 where
  pub keyboard_mode : ℕ
  pub ctrl_flag : ℕ
  pub alt_flag : ℕ
  pub buffers : ℕ → Mem
  pub buffer_index : ℕ
  pub return_flag : ℕ
  pub cur_term_id : ℕ
  pub terminals : ℕ → Term
  pub paging : Paging
  pub display : Display

pub data Control : Type 0 where
  resume run_shell halt_process : Control

abbrev pub keyboard_irq : ℕ
keyboard_irq = 1

abbrev pub keyboard_num_keys : ℕ
keyboard_num_keys = 128

abbrev pub num_actual_map_keys : ℕ
num_actual_map_keys = 87

abbrev pub press_nothing : ℕ
press_nothing = 0

abbrev pub press_shift_only : ℕ
press_shift_only = 1

abbrev pub press_cap_only : ℕ
press_cap_only = 2

abbrev pub press_shift_cap : ℕ
press_shift_cap = 3

abbrev pub press_ctrl : ℕ
press_ctrl = 4

abbrev pub press_alt : ℕ
press_alt = 5

abbrev pub on_display : (Display → Display) → Console → Console
on_display f c = record c { display = f c.display }

abbrev pub on_io : (Io → Io) → Console → Console
on_io f c = record c { display = record (c.display) { io = f c.display.io } }

-- `buffKeyPtr[cur_term_id][i] = v`
abbrev pub store_key : ℕ → ℕ → Console → Console
store_key i v c = record c {
  buffers = λ t. if t == c.cur_term_id then store (c.buffers t) i v else c.buffers t;
}

abbrev pub initialize_clear_buffer : Console → Console
initialize_clear_buffer c = record c { buffer_index = 0 }

unfoldable pub open_keyboard : Console → ℤ × Console
open_keyboard c = (pos 0, on_io (enable_irq keyboard_irq) (initialize_clear_buffer c))

unfoldable pub close_keyboard : Console → ℤ × Console
close_keyboard c = (pos 0, on_io (disable_irq keyboard_irq) c)

unfoldable pub press_caps : Console → Console
press_caps c =
    if c.keyboard_mode == press_cap_only
    then record c { keyboard_mode = press_nothing }
    else if c.keyboard_mode == press_shift_only
    then record c { keyboard_mode = press_shift_cap }
    else if c.keyboard_mode == press_shift_cap
    then record c { keyboard_mode = press_shift_only }
    else record c { keyboard_mode = press_cap_only }

unfoldable pub press_shift : Console → Console
press_shift c =
    if c.keyboard_mode == press_cap_only
    then record c { keyboard_mode = press_shift_cap }
    else record c { keyboard_mode = press_shift_only }

unfoldable pub unpress_shift : Console → Console
unpress_shift c =
    if c.keyboard_mode == press_shift_cap
    then record c { keyboard_mode = press_cap_only }
    else record c { keyboard_mode = press_nothing }

unfoldable pub press_enter : Console → Console
press_enter c =
    let c1 = initialize_clear_buffer (store_key c.buffer_index 0 c) in
    record c1 { display = putc 10 c1.display; return_flag = 1 }

-- The screen's part of `press_bskp`: a blank in the cell before the cursor, and the cursor back.
unfoldable pub step_back : Display → Display
step_back d =
    let x = d.screen_x in
    let y = d.screen_y in
    let blank = num_cols * y + x - 1 in
    let d1 =
      if ltb 1 y || ltb 0 x
      then record d {
        mem = store (store d.mem (video + 2 * blank) b' ') (video + 2 * blank + 1) attrib;
      }
      else d in
    if not (x == 0)
    then set_coord_x (x - 1) d1
    else set_coord_x (num_cols - 1) (if ltb 0 y then set_coord_y (y - 1) d1 else d1)

unfoldable pub press_bskp : Console → Console
press_bskp c = on_display move_curser (
    if ltb 0 c.buffer_index
    then (let c1 = store_key (c.buffer_index - 1) 0 c in
        record c1 { buffer_index = c.buffer_index - 1; display = step_back c1.display })
    else c)

-- A character key with the control key up.
unfoldable pub type_key : ℕ → Console → Console
type_key actual_key c =
    if c.buffer_index == keyboard_num_keys
    then c
    else (let c1 = store_key c.buffer_index actual_key c in
        record c1 {
          buffer_index = (c.buffer_index + 1) % 2 ^ 8;
          display = putc actual_key c1.display;
        })

-- A character key with the control key down.
unfoldable pub control_key : ℕ → Console → Control × Console
control_key actual_key c =
    let c1 =
      if actual_key == b'l' || actual_key == b'L'
      then on_display (λ d. move_curser (set_coord_x 0 (set_coord_y 0 d)))
          (initialize_clear_buffer (on_display clear c))
      else c in
    if actual_key == b'c' || actual_key == b'C'
    then (halt_process, on_io (λ io. enable_irq keyboard_irq (send_eoi keyboard_irq io)) c1)
    else (resume, c1)

unfoldable pub press_other_key : ℕ → Console → Control × Console
press_other_key key c =
    let actual_key = scancode_array c.keyboard_mode key in
    if leb num_actual_map_keys key || actual_key == 0
    then (resume, c)
    else if c.ctrl_flag == press_nothing
    then (resume, type_key actual_key c)
    else control_key actual_key c

unfoldable pub set_ctrl_flag : ℕ → Console → Console
set_ctrl_flag key c =
    let c1 = if key == 0x1D then record c { ctrl_flag = press_ctrl } else c in
    if key == 0x9D then record c1 { ctrl_flag = press_nothing } else c1

unfoldable pub set_alt_flag : ℕ → Console → Console
set_alt_flag key c =
    let c1 = if key == 0x38 then record c { alt_flag = press_alt } else c in
    if key == 0xB8 then record c1 { alt_flag = press_nothing } else c1

-- The copying loop of `keyboard_read`, for `left` more values of `i`: it ends at `nbytes` and at the
-- zero byte, and returns 0 when all 128 bytes are copied.
pub read_keys : (left : ℕ) → ℤ → ℕ → ℕ → Mem → Mem → ℤ × Mem
read_keys zero nbytes buf i keys m = (pos 0, m)
read_keys (suc left) (negsuc n) buf i keys m = (pos i, m)
read_keys (suc left) (pos nbytes) buf i keys m =
    let m' = store m (buf + i) (keys i) in
    let rest = read_keys left (pos nbytes) buf (i + 1) keys m' in
    if leb nbytes i then (pos i, m) else if keys i == 0 then (pos i, m') else rest

-- `keyboard_read` once a line is there.
unfoldable pub read_line : ℕ → ℤ → Console → ℤ × Console
read_line buf nbytes c =
    let (result, m) =
      read_keys keyboard_num_keys nbytes buf 0 (c.buffers c.cur_term_id) c.display.mem in
    (result, on_display (λ d. record d { mem = m }) c)

-- The loop of `keyboard_write`, for `left` more values of `i`.
unfoldable pub write_keys : (left : ℕ) → ℕ → ℕ → Display → ℕ × Display
write_keys zero buff i d = (i, d)
write_keys (suc left) buff i d =
    write_keys left buff (i + 1) (if d.mem (buff + i) == 0 then d else putc (d.mem (buff + i)) d)

unfoldable pub keyboard_write : ℕ → ℤ → Console → ℤ × Console
keyboard_write buff (negsuc n) c = (pos 0, c)
keyboard_write buff (pos nbytes) c =
    let (i, d) = write_keys nbytes buff 0 c.display in (pos i, record c { display = d })
