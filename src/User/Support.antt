-- ===== src/User/Support.antt =====
-- chapOS/syscalls/ece391support.c, of which chapOS/fish has a copy. Scans for a zero byte take fuel.
pub mod Agreement
use chap_os.Common.{
  ℕ, zero, suc, ◌+◌, ◌-◌, ◌/◌, ◌%◌, Option, none, some, ◌==◌, ltb, if◌then◌else◌, Mem, store, ℤ,
  pos, sub_ℕ,
}
use chap_os.Text.{lookup_digit}

-- `for (len = 0; '\0' != *s; s++, len++);`
unfoldable pub count_bytes : (fuel : ℕ) → Mem → ℕ → ℕ → Option ℕ
count_bytes zero m s len = none
count_bytes (suc fuel) m s len =
    let rest = count_bytes fuel m (s + 1) (len + 1) in if m s == 0 then some len else rest

unfoldable pub ece391_strlen : (fuel : ℕ) → Mem → ℕ → Option ℕ
ece391_strlen fuel m s = count_bytes fuel m s 0

-- The byte is copied before it is tested.
unfoldable pub ece391_strcpy : (fuel : ℕ) → Mem → ℕ → ℕ → Option Mem
ece391_strcpy zero m dst src = none
ece391_strcpy (suc fuel) m dst src =
    let m' = store m dst (m src) in
    let rest = ece391_strcpy fuel m' (dst + 1) (src + 1) in if m src == 0 then some m' else rest

unfoldable pub ece391_strcmp : (fuel : ℕ) → Mem → ℕ → ℕ → Option ℤ
ece391_strcmp zero m s1 s2 = none
ece391_strcmp (suc fuel) m s1 s2 =
    let rest = ece391_strcmp fuel m (s1 + 1) (s2 + 1) in
    if m s1 == m s2 then (if m s1 == 0 then some (pos 0) else rest) else some (sub_ℕ (m s1) (m s2))

-- The loop of `ece391_strncmp`, with `n` at least one.
unfoldable pub compare_bytes : (n : ℕ) → Mem → ℕ → ℕ → ℤ
compare_bytes zero m s1 s2 = pos 0
compare_bytes (suc n) m s1 s2 =
    let rest = compare_bytes n m (s1 + 1) (s2 + 1) in
    if m s1 == m s2
    then (if m s1 == 0 then pos 0 else if n == 0 then pos 0 else rest)
    else sub_ℕ (m s1) (m s2)

unfoldable pub ece391_strncmp : Mem → ℕ → ℕ → ℕ → ℤ
ece391_strncmp m s1 s2 n = if n == 0 then pos 0 else compare_bytes n m s1 s2

-- The loop of `ece391_strrev` runs at most `end` times.
unfoldable pub swap_ends : (fuel : ℕ) → Mem → ℕ → ℕ → ℕ → Mem
swap_ends zero m s beg end = m
swap_ends (suc fuel) m s beg end =
    let m' = store (store m (s + end) (m (s + beg))) (s + beg) (m (s + end)) in
    let rest = swap_ends fuel m' s (beg + 1) (end - 1) in if ltb beg end then rest else m

-- A text of at most one byte is returned as it is.
unfoldable pub ece391_strrev : (fuel : ℕ) → Mem → ℕ → Option Mem
ece391_strrev fuel m s = elim (ece391_strlen fuel m s) [
  | none ↦ none
  | some len ↦ if ltb len 2 then some m else some (swap_ends len m s 0 (len - 1))
]

-- `while (newval > 0)`: memory and the final `newbuf`.
unfoldable pub digit_loop : (fuel : ℕ) → Mem → ℕ → ℕ → ℕ → Option (Mem × ℕ)
digit_loop zero m newbuf newval radix = if newval == 0 then some (m, newbuf) else none
digit_loop (suc fuel) m newbuf newval radix =
    let rest =
      digit_loop fuel (store m newbuf (lookup_digit (newval % radix))) (newbuf + 1) (newval / radix)
        radix in
    if newval == 0 then some (m, newbuf) else rest

-- At most 32 digits, and a scan that looks at one byte more.
unfoldable pub ece391_itoa : Mem → ℕ → ℕ → ℕ → Option Mem
ece391_itoa m value buf radix =
    if value == 0
    then some (store (store m buf b'0') (buf + 1) 0)
    else elim (digit_loop 32 m buf value radix) [
      | none ↦ none
      | some (m', newbuf) ↦ ece391_strrev 33 (store m' newbuf 0) buf
    ]
