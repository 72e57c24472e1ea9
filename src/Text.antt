-- ===== src/Text.antt =====
-- The string operations of chapOS/student-distrib/lib.c: `strlen`, `strcpy`, `strncpy`, `strncmp`,
-- `strrev`, `itoa`. A pointer is an address. A scan for the terminating byte takes fuel and is
-- `none` where it runs out; scans bounded by `n` need none.
pub mod Length
pub mod Copy
pub mod Compare
pub mod Reverse
pub mod DigitValues
pub mod Number
use chap_os.Common.{
  ℕ, zero, suc, ◌+◌, ◌-◌, ◌/◌, ◌%◌, ◌≡◌, ◌≢◌, ◌<◌, not, ◌||◌, Option, none, some, ◌==◌, ltb,
  if◌then◌else◌, Mem, store, ℤ, pos, signed8, sub_ℤ,
}

unfoldable pub strlen_from : ℕ → Mem → ℕ → ℕ → Option ℕ
strlen_from zero m s len = none
strlen_from (suc fuel) m s len =
    let rest = strlen_from fuel m s (len + 1) in if m (s + len) == 0 then some len else rest

unfoldable pub strlen : ℕ → Mem → ℕ → Option ℕ
strlen fuel m s = strlen_from fuel m s 0

unfoldable pub strcpy_from : ℕ → Mem → ℕ → ℕ → ℕ → Option Mem
strcpy_from zero m dest src i = none
strcpy_from (suc fuel) m dest src i =
    let rest = strcpy_from fuel (store m (dest + i) (m (src + i))) dest src (i + 1) in
    if m (src + i) == 0 then some (store m (dest + i) 0) else rest

unfoldable pub strcpy : ℕ → Mem → ℕ → ℕ → Option Mem
strcpy fuel m dest src = strcpy_from fuel m dest src 0

-- The loops of `strncpy`, with `left` the number of indices below `n` that are left.
pub strncpy_copy : (left : ℕ) → Mem → ℕ → ℕ → ℕ → Mem × ℕ
strncpy_copy zero m dest src i = (m, i)
strncpy_copy (suc left) m dest src i =
    let rest = strncpy_copy left (store m (dest + i) (m (src + i))) dest src (i + 1) in
    if m (src + i) == 0 then (m, i) else rest

pub strncpy_pad : (left : ℕ) → Mem → ℕ → ℕ → Mem
strncpy_pad zero m dest i = m
strncpy_pad (suc left) m dest i = strncpy_pad left (store m (dest + i) 0) dest (i + 1)

pub strncpy : Mem → ℕ → ℕ → ℕ → Mem
strncpy m dest src n = let (m', i) = strncpy_copy n m dest src 0 in strncpy_pad (n - i) m' dest i

pub strncmp_from : (left : ℕ) → Mem → ℕ → ℕ → ℕ → ℤ
strncmp_from zero m s1 s2 i = pos 0
strncmp_from (suc left) m s1 s2 i =
    let rest = strncmp_from left m s1 s2 (i + 1) in
    if not (m (s1 + i) == m (s2 + i)) || m (s1 + i) == 0
    then sub_ℤ (signed8 (m (s1 + i))) (signed8 (m (s2 + i)))
    else rest

pub strncmp : Mem → ℕ → ℕ → ℕ → ℤ
strncmp m s1 s2 n = strncmp_from n m s1 s2 0

-- The loop of `strrev` runs at most `end` times.
unfoldable pub strrev_loop : ℕ → Mem → ℕ → ℕ → ℕ → Mem
strrev_loop zero m s beg end = m
strrev_loop (suc fuel) m s beg end =
    let rest =
      strrev_loop fuel (store (store m (s + end) (m (s + beg))) (s + beg) (m (s + end))) s (beg + 1)
        (end - 1) in
    if ltb beg end then rest else m

-- For the empty text `end` is -1 in the source and 0 here; the loop ends at once for both.
unfoldable pub strrev : ℕ → Mem → ℕ → Option Mem
strrev fuel m s = elim (strlen fuel m s) [
  | none ↦ none
  | some len ↦ some (strrev_loop len m s 0 (len - 1))
]

-- `"0123456789ABCDEFGHIJKLMNOPQRSTUVWXYZ"[i]`
abbrev pub lookup_digit : ℕ → ℕ
lookup_digit i = if ltb i 10 then b'0' + i else b'A' + (i - 10)

-- `while (newval > 0)`: memory and the final `newbuf`.
unfoldable pub itoa_digits : ℕ → Mem → ℕ → ℕ → ℕ → Option (Mem × ℕ)
itoa_digits zero m newbuf newval radix = if newval == 0 then some (m, newbuf) else none
itoa_digits (suc fuel) m newbuf newval radix =
    let rest =
      itoa_digits fuel (store m newbuf (lookup_digit (newval % radix))) (newbuf + 1)
        (newval / radix) radix in
    if newval == 0 then some (m, newbuf) else rest

-- A 32-bit number has at most 32 digits in any radix from 2 on, and the scan in `strrev` looks at
-- one byte more.
abbrev pub digit_limit : ℕ
digit_limit = 32

unfoldable pub itoa : Mem → ℕ → ℕ → ℕ → Option Mem
itoa m value buf radix =
    if value == 0
    then some (store (store m buf b'0') (buf + 1) 0)
    else elim (itoa_digits digit_limit m buf value radix) [
      | none ↦ none
      | some (m', newbuf) ↦ strrev (suc digit_limit) (store m' newbuf 0) buf
    ]
