-- ===== src/User/Programs.antt =====
-- chapOS/syscalls: ece391cat.c, ece391ls.c, ece391hello.c, ece391testprint.c and ece391counter.c.
use Prim.Native.String.{String}
use chap_os.Common.{
  negsuc, codes, ℕ, zero, suc, ◌+◌, ◌||◌, ◌&&◌, not, none, some, List, ltb, ◌==◌, if◌then◌else◌, ℤ,
  pos,
}
use chap_os.FileSys.{is_zero}
use chap_os.Process.Files.{is_minus_one}
use chap_os.User.{Step, pure, ◌>>=◌, ◌>>◌, Calls}
use chap_os.User.Support.{ece391_strlen, ece391_itoa}
use chap_os.User.Io.{at_index, poke, ece391_fdputs, say}

-- `cnt + 1`
abbrev pub one_more : ℤ → ℤ
one_more (pos n) = pos (n + 1)
one_more (negsuc zero) = pos 0
one_more (negsuc (suc n)) = negsuc n

-- `fuel` bounds the texts that are printed, and `lit` says where the literals lie.
module _ (C : Calls) (fuel : ℕ) (lit : List ℕ → ℕ) where
  open C use {State, mem, set_mem, read, write, open_call, getargs}

  -- A message, and the value that `main` then returns.
  abbrev pub fail_with : String → ℕ → Step State ℤ
  fail_with message value = do say C fuel lit message; pure (pos value)

  -- The loop of `cat`, for at most `rounds` reads.
  unfoldable pub cat_loop : (rounds : ℕ) → ℤ → ℕ → Step State ℤ
  cat_loop zero fd buf = λ s. none
  cat_loop (suc rounds) fd buf = do
    let again = cat_loop rounds fd buf
    cnt ← read fd buf (pos 1024)
    if is_zero cnt
        then pure (pos 0)
        else if is_minus_one cnt
        then fail_with "file read failed\n" 3
        else (do r ← write (pos 1) buf cnt; if is_minus_one r then pure (pos 3) else again)

  unfoldable pub cat : (rounds : ℕ) → ℕ → Step State ℤ
  cat rounds buf = do
    r ← getargs buf (pos 1024)
    if not (is_zero r) then fail_with "could not read arguments\n" 3 else do
      fd ← open_call buf
      if is_minus_one fd then fail_with "file not found\n" 2 else cat_loop rounds fd buf

  -- The loop of `ls`.
  unfoldable pub ls_loop : (rounds : ℕ) → ℤ → ℕ → Step State ℤ
  ls_loop zero fd buf = λ s. none
  ls_loop (suc rounds) fd buf = do
    let again = ls_loop rounds fd buf
    cnt ← read fd buf (pos 32)
    if is_zero cnt
        then pure (pos 0)
        else if is_minus_one cnt
        then fail_with "directory entry read failed\n" 3
        else (do
          poke C (at_index buf cnt) 10
          r ← write (pos 1) buf (one_more cnt)
          if is_minus_one r then pure (pos 3) else again)

  unfoldable pub ls : (rounds : ℕ) → ℕ → Step State ℤ
  ls rounds buf = do
    fd ← open_call (lit (codes "."))
    if is_minus_one fd then fail_with "directory open failed\n" 2 else ls_loop rounds fd buf

  unfoldable pub hello : ℕ → Step State ℤ
  hello buf = do
    say C fuel lit "Hi, what's your name? "
    cnt ← read (pos 0) buf (pos 1023)
    if is_minus_one cnt then fail_with "Can't read name from keyboard.\n" 3 else do
      poke C (at_index buf cnt) 0
      say C fuel lit "Hello, "
      ece391_fdputs C fuel (pos 1) buf
      pure (pos 0)

  unfoldable pub testprint : Step State ℤ
  testprint = fail_with "Hello, if this ran, the program was correct. Yay!\n" 0

  -- `ece391_itoa (value, buf, 10)`
  abbrev pub numeral : ℕ → ℕ → Step State (Unit {0})
  numeral value buf s = elim (ece391_itoa (mem s) value buf 10) [
    | none ↦ none
    | some m ↦ some (tt, set_mem m s)
  ]

  -- The loop of `counter`, for `left` more values from `i` on.
  unfoldable pub count_up : (left : ℕ) → ℕ → ℕ → Step State ℤ
  count_up zero i buf = pure (pos 0)
  count_up (suc left) i buf = do
    let rest = count_up left (i + 1) buf
    numeral (i + 1) buf
    ece391_fdputs C fuel (pos 1) buf
    say C fuel lit "\n"
    rest

  -- The choice of `max`.
  abbrev pub max_for : ℕ → ℕ
  max_for c =
      if c == b'0' then 100 else if c == b'1' then 10000 else if c == b'2' then 100000 else 0

  unfoldable pub counter : ℕ → Step State ℤ
  counter buf = do
    say C fuel lit "Enter the Test Number: (0): 100, (1): 10000, (2): 100000\n"
    cnt ← read (pos 0) buf (pos 1023)
    if is_minus_one cnt then fail_with "Can't read the number from keyboard.\n" 3 else do
      poke C (at_index buf cnt) 0
      λ s. elim (ece391_strlen fuel (mem s) buf) [
        | none ↦ none
        | some len ↦
            let first = mem s buf in
            (if ltb 2 len || (len == 2 && (ltb first b'0' || ltb b'2' first))
                then fail_with "Wrong Choice!\n" 0
                else count_up (max_for first) 0 buf)
              s
      ]
