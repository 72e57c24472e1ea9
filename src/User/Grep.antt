-- ===== src/User/Grep.antt =====
-- chapOS/syscalls/ece391grep.c
use chap_os.Common.{
  ℕ, zero, suc, ◌+◌, ◌-◌, ◌&&◌, not, none, some, List, codes, leb, ◌==◌, if◌then◌else◌, Mem, store,
  ℤ, pos, negsuc, sub_ℕ, Bool, true, false,
}
use chap_os.FileSys.{is_zero}
use chap_os.Process.Files.{is_minus_one}
use chap_os.User.{Step, pure, ◌>>=◌, ◌>>◌, Calls}
use chap_os.User.Support.{ece391_strlen, ece391_strncmp, ece391_strcpy}
use chap_os.User.Io.{at_index, poke, ece391_fdputs, say}
use chap_os.User.Programs.{fail_with}

-- `while (line_end < last && '\n' != data[line_end]) line_end++;`, for `left` more indices.
unfoldable pub line_end_from : (left : ℕ) → Mem → ℕ → ℕ → ℕ
line_end_from zero m text line_end = line_end
line_end_from (suc left) m text line_end =
    let rest = line_end_from left m text (line_end + 1) in
    if m (text + line_end) == b'\n' then line_end else rest

-- Whether the search text is in the line: the loop over `check`, for `left` more positions.
unfoldable pub match_from : (left : ℕ) → Mem → ℕ → ℕ → ℕ → ℕ → Bool
match_from zero m text s s_len check = false
match_from (suc left) m text s s_len check =
    let rest = match_from left m text s s_len (check + 1) in
    if m s == m (text + check) && is_zero (ece391_strncmp m (text + check) s s_len)
    then true
    else rest

-- `cnt`, once it is known not to be -1; a call returns no other negative number.
abbrev pub count_of : ℤ → ℕ
count_of (pos n) = n
count_of (negsuc n) = 0

module _ (C : Calls) (fuel : ℕ) (lit : List ℕ → ℕ) where
  open C use {State, mem, set_mem, read, open_call, close, getargs}

  abbrev pub put : ℕ → Step State (Unit {0})
  put = ece391_fdputs C fuel (pos 1)

  unfoldable pub print_match : (fname line : ℕ) → Step State (Unit {0})
  print_match fname line = do put fname; say C fuel lit ":"; put line; say C fuel lit "\n"

  -- Search the line from `line_start` to `line_end`, now that it is ended.
  unfoldable pub search_line : (text s fname s_len line_start line_end : ℕ) → Step State (Unit {0})
  search_line text s fname s_len line_start line_end st =
      (if match_from (line_end - line_start) (mem st) text s s_len line_start
          then print_match fname (text + line_start)
          else pure tt)
        st

  -- The inner `while (1)`: the new `last`.
  unfoldable pub scan_lines :
      (rounds : ℕ) → (text s fname s_len cnt last line_start : ℕ) → Step State ℕ
  scan_lines zero text s fname s_len cnt last line_start st = none
  scan_lines (suc rounds) text s fname s_len cnt last line_start st =
      let line_end = line_end_from (last - line_start) (mem st) text line_start in
      let ended = set_mem (store (mem st) (text + line_end) 0) st in
      let rest = scan_lines rounds text s fname s_len cnt last (line_end + 1) in
      if not (mem st (text + line_end) == b'\n') && not (cnt == 0) && not (line_start == 0)
      then (elim (ece391_strcpy fuel (mem ended) text (text + line_start)) [
        | none ↦ none
        | some m ↦ some (last - line_start, set_mem m ended)
      ])
      else (do
        search_line text s fname s_len line_start line_end
        if leb last (line_end + 1) then pure 0 else rest)
          ended

  -- The outer `while (1)`.
  unfoldable pub read_blocks : (rounds : ℕ) → ℤ → (text s fname s_len last : ℕ) → Step State ℤ
  read_blocks zero fd text s fname s_len last = λ st. none
  read_blocks (suc rounds) fd text s fname s_len last = do
    let again = read_blocks rounds fd text s fname s_len
    cnt ← read fd (text + last) (sub_ℕ 1024 last)
    if is_minus_one cnt then (do say C fuel lit "file read failed\n"; pure (negsuc 0)) else (do
      left ←
          scan_lines (suc (last + count_of cnt)) text s fname s_len (count_of cnt)
            (last + count_of cnt) 0
      if count_of cnt == 0 then pure (pos 0) else again left)

  -- `do_one_file`, with its array `data` at `text`.
  unfoldable pub do_one_file : (rounds : ℕ) → (text s fname : ℕ) → Step State ℤ
  do_one_file rounds text s fname st = elim (ece391_strlen fuel (mem st) s) [
    | none ↦ none
    | some s_len ↦
        (do
          fd ← open_call fname
          if is_minus_one fd then (do say C fuel lit "file open failed\n"; pure (negsuc 0)) else (do
            r ← read_blocks rounds fd text s fname s_len 0
            if is_minus_one r then pure r else (do
              closed ← close fd
              if is_minus_one closed
                  then (do say C fuel lit "file close failed\n"; pure (negsuc 0))
                  else pure (pos 0))))
          st
  ]

  -- The loop over the directory.
  unfoldable pub grep_entries : (rounds : ℕ) → ℤ → (text buf search : ℕ) → Step State ℤ
  grep_entries zero fd text buf search = λ st. none
  grep_entries (suc rounds) fd text buf search = do
    let again = grep_entries rounds fd text buf search
    let search_file = do_one_file rounds text search buf
    cnt ← read fd buf (pos 32)
    if is_zero cnt
        then pure (pos 0)
        else if is_minus_one cnt
        then fail_with C fuel lit "directory entry read failed\n" 3
        else λ st.
            (if mem st buf == b'.' then again else (do
              poke C (at_index buf cnt) 0
              r ← search_file
              if is_zero r then again else pure (pos 3)))
              st

  unfoldable pub grep : (rounds : ℕ) → (text buf search : ℕ) → Step State ℤ
  grep rounds text buf search = do
    r ← getargs search (pos 1024)
    if not (is_zero r) then fail_with C fuel lit "could not read argument\n" 3 else (do
      fd ← open_call (lit (codes "."))
      if is_minus_one fd
          then fail_with C fuel lit "directory open failed\n" 2
          else grep_entries rounds fd text buf search)
