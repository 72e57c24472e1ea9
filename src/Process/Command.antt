-- ===== src/Process/Command.antt =====
-- The command parser of `execute` in system_call.c. The arrays `file_name_command` (10 bytes) and
-- `arg_command` (100 bytes) lie on the stack, at `name_buf` and `arg_buf`; the source stores into
-- them without a bound. A position that is -1 in the source is `none`.
use chap_os.Common.{
  ℕ, zero, suc, ◌+◌, ◌-◌, Option, none, some, ◌==◌, if◌then◌else◌, Mem, store, not,
}

abbrev pub max_name_size : ℕ
max_name_size = 10

abbrev pub max_arg_size : ℕ
max_arg_size = 100

-- The loops that clear the arrays, for `left` more bytes from `i` on.
unfoldable pub clear_array : (left : ℕ) → ℕ → ℕ → Mem → Mem
clear_array zero buf i m = m
clear_array (suc left) buf i m = clear_array left buf (i + 1) (store m (buf + i) 0)

pub record Scan : Type 0 where
  pub i : ℕ
  pub name_starting_point : Option ℕ
  pub name_ending_point : Option ℕ
  pub arg_starting_point : Option ℕ
  pub arg_ending_point : Option ℕ
  pub mem : Mem

-- How a round of the loop ends: with another round, with `break`, or with `return -1`.
pub data Round : Type 0 where
  again : Scan → Round
  break_off : Scan → Round
  return_failure : Scan → Round

module _ (command name_buf arg_buf : ℕ) where
  -- A round, on the character `c` of the command.
  unfoldable pub scan_round : ℕ → Scan → Round
  scan_round c s = elim s.name_starting_point [
    | none ↦
        if c == b' '
        then again (record s { i = s.i + 1 })
        else again (record s { name_starting_point = some s.i })
    | some name_start ↦ elim s.name_ending_point [
      | none ↦
          if not (c == b' ')
          then again (record s { mem = store s.mem (name_buf + (s.i - name_start)) c; i = s.i + 1 })
          else again (record s {
            name_ending_point = some s.i;
            mem = store s.mem (name_buf + (s.i - name_start)) 0;
          })
      | some name_end ↦ elim s.arg_starting_point [
        | none ↦
            if c == b' '
            then again (record s { i = s.i + 1 })
            else again (record s { arg_starting_point = some s.i })
        | some arg_start ↦ elim s.arg_ending_point [
          | none ↦
              if not (c == b' ')
              then again
                  (record s { mem = store s.mem (arg_buf + (s.i - arg_start)) c; i = s.i + 1 })
              else break_off (record s {
                arg_ending_point = some s.i;
                mem = store s.mem (arg_buf + (s.i - arg_start)) 0;
              })
          | some arg_end ↦ return_failure s
        ]
      ]
    ]
  ]

  -- `while (command[i] != NULL_CHAR)`: `none` when the fuel is used up; otherwise `return_failure`, or
  -- the scan with `again` or `break_off` for the way in which the loop was left.
  unfoldable pub scan_command : ℕ → Scan → Option Round
  scan_command zero s = none
  scan_command (suc fuel) s =
      let next = λ (s' : Scan). scan_command fuel s' in
      if s.mem (command + s.i) == 0
      then some (again s)
      else (elim (scan_round (s.mem (command + s.i)) s) [
        | again s' ↦ next s'
        | break_off s' ↦ some (break_off s')
        | return_failure s' ↦ some (return_failure s')
      ])

  -- The scan starts with both arrays cleared.
  unfoldable pub initial_scan : Mem → Scan
  initial_scan m = record {
    i = 0;
    name_starting_point = none;
    name_ending_point = none;
    arg_starting_point = none;
    arg_ending_point = none;
    mem = clear_array max_arg_size arg_buf 0 (clear_array max_name_size name_buf 0 m);
  }
