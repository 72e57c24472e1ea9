-- ===== src/Keyboard/Handler.antt =====
-- `keyboard_int_handler` of keyboard.c, with the terminals, and the wait of `keyboard_read`.
use chap_os.Common.{◌>>=◌, ℕ, Option, none, some, List, [], ◌∷◌, ◌==◌, if◌then◌else◌, ℤ}
use chap_os.Pic.{Io, enable_irq, disable_irq, send_eoi}
use chap_os.Paging.{Layout}
use chap_os.Keyboard.{
  Console, Control, resume, run_shell, halt_process, keyboard_irq, press_alt, on_io, press_caps,
  press_enter, press_shift, unpress_shift, press_bskp, set_ctrl_flag, set_alt_flag, press_other_key,
  read_line,
}
use chap_os.Keyboard.Terminal.{terminal_los}

-- `while (1)` round `inb`: the first answer of the port that is not 0.
unfoldable pub first_key : List ℕ → Option ℕ
first_key [] = none
first_key (k ∷ ks) = let rest = first_key ks in if k == 0 then rest else some k

-- The end of the handler.
abbrev pub end_interrupt : Io → Io
end_interrupt io = enable_irq keyboard_irq (send_eoi keyboard_irq io)

module _ (l : Layout) where
  -- A function key: with the alternate key down it selects a terminal.
  unfoldable pub function_key : ℕ → Console → Option (Control × Console)
  function_key id c =
      if c.alt_flag == press_alt
      then (terminal_los l id (on_io (send_eoi keyboard_irq) c) >>= λ r. some (r.1, r.2))
      else some (resume, c)

  unfoldable pub dispatch : ℕ → Console → Option (Control × Console)
  dispatch key c =
      if key == 0x3A
      then some (resume, press_caps c)
      else if key == 0x1C
      then some (resume, press_enter c)
      else if key == 0x2A
      then some (resume, press_shift c)
      else if key == 0xAA
      then some (resume, unpress_shift c)
      else if key == 0x36
      then some (resume, press_shift c)
      else if key == 0xB6
      then some (resume, unpress_shift c)
      else if key == 0x0E
      then some (resume, press_bskp c)
      else if key == 0x1D
      then some (resume, set_ctrl_flag 0x1D c)
      else if key == 0x9D
      then some (resume, set_ctrl_flag 0x9D c)
      else if key == 0x38
      then some (resume, set_alt_flag 0x38 c)
      else if key == 0xB8
      then some (resume, set_alt_flag 0xB8 c)
      else if key == 0x3B
      then function_key 0 c
      else if key == 0x3C
      then function_key 1 c
      else if key == 0x3D
      then function_key 2 c
      else some (press_other_key key c)

  -- The handler for a scan code. Where control goes to another process, the end of the handler is not
  -- reached before that process ends.
  unfoldable pub handle_key : ℕ → Console → Option (Control × Console)
  handle_key key c = elim (dispatch key (on_io (disable_irq keyboard_irq) c)) [
    | none ↦ none
    | some (resume, c') ↦ some (resume, on_io end_interrupt c')
    | some (run_shell, c') ↦ some (run_shell, c')
    | some (halt_process, c') ↦ some (halt_process, c')
  ]

  unfoldable pub keyboard_int_handler : List ℕ → Console → Option (Control × Console)
  keyboard_int_handler answers c = elim (first_key answers) [
    | none ↦ none
    | some key ↦ handle_key key c
  ]

  -- `while (!return_flag);` over the scan codes that come in; `none` if it still waits after them, or
  -- if control leaves the process.
  unfoldable pub wait_line : List ℕ → Console → Option Console
  wait_line [] c = if c.return_flag == 0 then none else some c
  wait_line (key ∷ keys) c =
      let next = λ (c' : Console). wait_line keys c' in
      if c.return_flag == 0
      then (elim (handle_key key c) [
        | none ↦ none
        | some (resume, c') ↦ next c'
        | some (run_shell, c') ↦ none
        | some (halt_process, c') ↦ none
      ])
      else some c

  unfoldable pub keyboard_read : List ℕ → ℕ → ℤ → Console → Option (ℤ × Console)
  keyboard_read keys buf nbytes c = elim (wait_line keys (record c { return_flag = 0 })) [
    | none ↦ none
    | some c' ↦ some (read_line buf nbytes c')
  ]
