-- ===== src/User/Syserr.antt =====
-- chapOS/syscalls/ece391syserr.c, the tests of the system calls' error paths. Each test returns 0
-- for a pass and 2 for a failure.
pub mod Refusals
pub mod Passing
pub mod Unlisted
use Prim.Native.String.{String}
use chap_os.Common.{ℕ, zero, suc, ◌+◌, ◌-◌, List, codes, ◌==◌, if◌then◌else◌, ℤ, pos, negsuc}
use chap_os.Process.Files.{is_minus_one}
use chap_os.User.{Step, pure, ◌>>=◌, ◌>>◌, Calls}
use chap_os.User.Io.{say}
use chap_os.User.Programs.{fail_with}

abbrev pub neg_fd : ℤ
neg_fd = negsuc 1073741822

abbrev pub big_fd : ℤ
big_fd = pos 1073741823

module _ (C : Calls) (fuel : ℕ) (lit : List ℕ → ℕ) where
  open C use {State, mem, read, write, open_call, close, vidmap, int_0x80}

  -- `if (-1 != call) { fail = 2; puts (message); }`
  unfoldable pub expect_failure : Step State ℤ → String → ℕ → Step State ℕ
  expect_failure call message fail = do
    r ← call
    if is_minus_one r then pure fail else (do say C fuel lit message; pure 2)

  -- The closing message, and the value returned.
  unfoldable pub verdict : (failed passed : String) → ℕ → Step State ℤ
  verdict failed passed fail = do
    if fail == 0 then say C fuel lit passed else say C fuel lit failed
    pure (pos fail)

  unfoldable pub err_neg_fd : ℕ → Step State ℤ
  err_neg_fd buf = do
    f1 ← expect_failure (read neg_fd buf (pos 31)) "read fail\n" 0
    f2 ← expect_failure (write neg_fd buf (pos 31)) "write fail\n" f1
    f3 ← expect_failure (close neg_fd) "close fail\n" f2
    verdict "err_neg_fd: FAIL\n" "err_neg_fd: PASS\n" f3

  unfoldable pub err_big_fd : ℕ → Step State ℤ
  err_big_fd buf = do
    f1 ← expect_failure (read big_fd buf (pos 31)) "read fail\n" 0
    f2 ← expect_failure (write big_fd buf (pos 31)) "write fail\n" f1
    f3 ← expect_failure (close big_fd) "close fail\n" f2
    verdict "err_big_fd: FAIL\n" "err_big_fd: PASS\n" f3

  -- The number of failures among `left` more calls of `open (".")`.
  unfoldable pub open_lots : (left : ℕ) → ℕ → Step State ℕ
  open_lots zero cnt = pure cnt
  open_lots (suc left) cnt = do
    let rest = open_lots left
    fd ← open_call (lit (codes "."))
    if is_minus_one fd then rest (cnt + 1) else rest cnt

  unfoldable pub close_lots : (left : ℕ) → ℕ → Step State (Unit {0})
  close_lots zero i = pure tt
  close_lots (suc left) i = do let rest = close_lots left (i + 1); close (pos i); rest

  unfoldable pub err_open_lots : Step State ℤ
  err_open_lots = do
    cnt ← open_lots 7 0
    close_lots 6 2
    if cnt == 1
        then fail_with C fuel lit "err_open_lots: PASS\n" 0
        else fail_with C fuel lit "err_open_lots: FAIL\n" 2

  unfoldable pub err_open : Step State ℤ
  err_open = do
    f1 ← expect_failure (open_call (lit (codes "helloo"))) "'helloo' fail\n" 0
    f2 ← expect_failure (open_call (lit (codes "shel"))) "'shel' fail\n" f1
    f3 ← expect_failure (open_call (lit (codes ""))) "empty string fail\n" f2
    verdict "err_open: FAIL\n" "err_open: PASS\n" f3

  -- A loop of `expect_failure` over descriptors, for `left` more from `i` on.
  unfoldable pub all_fail : (left : ℕ) → ℕ → (ℕ → Step State ℤ) → String → ℕ → Step State ℕ
  all_fail zero i call message fail = pure fail
  all_fail (suc left) i call message fail = do
    let rest = all_fail left (i + 1) call message
    f ← expect_failure (call i) message fail
    rest f

  unfoldable pub err_unopened : ℕ → Step State ℤ
  err_unopened buf = do
    f1 ← all_fail 8 0 (λ i. close (pos i)) "close unopened or invalid fd fail\n" 0
    f2 ← all_fail 6 2 (λ i. read (pos i) buf (pos 31)) "read from unopened fd fail\n" f1
    f3 ← all_fail 6 2 (λ i. write (pos i) buf (pos 31)) "write to unopened fd fail\n" f2
    verdict "err_unopened: FAIL\n" "err_unopened: PASS\n" f3

  unfoldable pub err_vidmap : Step State ℤ
  err_vidmap = do
    f1 ← expect_failure (vidmap 0) "Null pointer fail\n" 0
    f2 ← expect_failure (vidmap 0x400000) "Kernel pointer fail fail\n" f1
    verdict "err_vidmap: FAIL\n" "err_vidmap: PASS\n" f2

  unfoldable pub err_stdin_out : ℕ → Step State ℤ
  err_stdin_out buf = do
    f1 ← expect_failure (write (pos 0) buf (pos 31)) "write to stdin fail\n" 0
    f2 ← expect_failure (read (pos 1) buf (pos 31)) "read from stdout fail\n" f1
    verdict "err_stdin_out: FAIL\n" "err_stdin_out: PASS\n" f2

  unfoldable pub err_syscall_num : Step State ℤ
  err_syscall_num = do
    f1 ← expect_failure (int_0x80 big_fd) "syscall 0 fail\n" 0
    f2 ← expect_failure (int_0x80 neg_fd) "big num syscall fail\n" f1
    f3 ← expect_failure (int_0x80 (pos 0)) "neg num syscall fail\n" f2
    verdict "err_syscall_num: FAIL\n" "err_syscall_num: PASS\n" f3

  -- `fail += test ()` for each test, of which none returns a negative number.
  abbrev pub add_result : Step State ℤ → ℕ → Step State ℕ
  add_result test fail = do r ← test; pure (elim r [ pos n ↦ fail + n | negsuc n ↦ fail - suc n ])

  unfoldable pub run_all : ℕ → Step State ℤ
  run_all buf = do
    f1 ← add_result (err_neg_fd buf) 0
    f2 ← add_result (err_big_fd buf) f1
    f3 ← add_result err_open_lots f2
    f4 ← add_result err_open f3
    f5 ← add_result (err_unopened buf) f4
    f6 ← add_result err_vidmap f5
    f7 ← add_result (err_stdin_out buf) f6
    f8 ← add_result err_syscall_num f7
    verdict "\nOverall Tests: FAIL\n" "\nOverall Tests: PASS\n" f8

  -- The `switch` of `main` on `buf[0] - '0'`; the tests' own arrays are at `local`.
  unfoldable pub choose_test : ℕ → ℕ → Step State ℤ
  choose_test c local =
      if c == b'0'
      then run_all local
      else if c == b'1'
      then err_neg_fd local
      else if c == b'2'
      then err_big_fd local
      else if c == b'3'
      then err_open_lots
      else if c == b'4'
      then err_open
      else if c == b'5'
      then err_unopened local
      else if c == b'6'
      then err_vidmap
      else if c == b'7'
      then err_stdin_out local
      else if c == b'8'
      then err_syscall_num
      else fail_with C fuel lit "Invalid test number. Choose from tests 1-8 or 0" 0

  unfoldable pub syserr : (buf local : ℕ) → Step State ℤ
  syserr buf local = do
    say C fuel lit "Choose from tests 1-8. 0 to run all: "
    cnt ← read (pos 0) buf (pos 127)
    if is_minus_one cnt then fail_with C fuel lit "Can't read test #\n" 2 else λ s.
        choose_test (mem s buf) local s
