-- ===== src/User/Shell.antt =====
-- chapOS/syscalls/ece391shell.c
use chap_os.Common.{
  ℕ, zero, suc, ◌+◌, not, Bool, false, none, some, List, codes, ◌==◌, if◌then◌else◌, ℤ, pos, negsuc,
}
use chap_os.FileSys.{is_zero}
use chap_os.Process.Files.{is_minus_one}
use chap_os.User.{Step, pure, ◌>>=◌, ◌>>◌, Calls}
use chap_os.User.Support.{ece391_strcmp}
use chap_os.User.Io.{at_index, poke, say}
use chap_os.User.Programs.{fail_with}

-- Whether the loop goes round again, or `main` returns.
pub data Round : Type 0 where
  again : Round
  return : ℤ → Round

abbrev pub is_256 : ℤ → Bool
is_256 (pos n) = n == 256
is_256 (negsuc n) = false

module _ (C : Calls) (fuel : ℕ) (lit : List ℕ → ℕ) where
  open C use {State, mem, read, execute}

  -- `cnt`, less a new line at the end of the line.
  abbrev pub trimmed : ℕ → ℤ → State → ℤ
  trimmed buf (negsuc n) s = negsuc n
  trimmed buf (pos zero) s = pos 0
  trimmed buf (pos (suc n)) s = if mem s (buf + n) == b'\n' then pos n else pos (suc n)

  -- What is printed on the value that `execute` returned.
  abbrev pub report : ℤ → Step State (Unit {0})
  report rval =
      if is_minus_one rval
      then say C fuel lit "no such command\n"
      else if is_256 rval
      then say C fuel lit "program terminated by exception\n"
      else if not (is_zero rval)
      then say C fuel lit "program terminated abnormally\n"
      else pure tt

  -- The line at `buf` is a command.
  unfoldable pub run_command : ℕ → Step State Round
  run_command buf s = elim (ece391_strcmp fuel (mem s) buf (lit (codes "exit"))) [
    | none ↦ none
    | some r ↦
        (if is_zero r
            then pure (return (pos 0))
            else if mem s buf == 0
            then pure again
            else (do rval ← execute buf; report rval; pure again))
          s
  ]

  -- One turn of `while (1)`.
  unfoldable pub shell_round : ℕ → Step State Round
  shell_round buf = do
    say C fuel lit "391OS> "
    cnt ← read (pos 0) buf (pos 1023)
    if is_minus_one cnt
        then (do v ← fail_with C fuel lit "read from keyboard failed\n" 3; pure (return v))
        else (do λ s. poke C (at_index buf (trimmed buf cnt s)) 0 s; run_command buf)

  unfoldable pub shell_loop : (rounds : ℕ) → ℕ → Step State ℤ
  shell_loop zero buf = λ s. none
  shell_loop (suc rounds) buf = do
    let rest = shell_loop rounds buf
    r ← shell_round buf
    elim r [ again ↦ rest | return v ↦ pure v ]

  unfoldable pub shell : (rounds : ℕ) → ℕ → Step State ℤ
  shell rounds buf = do say C fuel lit "Starting 391 Shell\n"; shell_loop rounds buf
