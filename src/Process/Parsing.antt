-- ===== src/Process/Parsing.antt =====
-- What the command parser leaves in the name's and the argument's array.
use chap_os.Common.{
  ℕ, suc, ◌+◌, ◌-◌, ◌≤◌, ◌<◌, ◌≡◌, ◌⊎◌, refl, ap, ◌∙◌, fun_ext, arith, ltb, if◌then◌else◌, none,
  some, Mem, store, within, placed, placed-other, filled,
}
use native.Mathlib.Nat.{add-zero}
use chap_os.Process.Command.{Scan, again, clear_array, scan_command, initial_scan}
use chap_os.Process.Scanning.{
  at_front, in_name, in_arg, IsLetter, clear_array-filled, read_name, read_arg, end_command,
}

-- A command that is `s` spaces and a word up to index `e`, which the zero byte follows.
pub record OneWord (m : Mem) (command s e : ℕ) : Type 0 where
  pub front : (j : ℕ) → j < s → m (command + j) ≡ b' '
  pub some_name : s < e
  pub name : (j : ℕ) → s ≤ j → j < e → IsLetter (m (command + j))
  pub ended : m (command + e) ≡ 0

-- The first `z + 1` bytes of the command are clear of `n` bytes at `buf`.
abbrev pub ClearOf : ℕ → ℕ → ℕ → ℕ → Type 0
ClearOf command z buf n = (command + z + 1 ≤ buf) ⊎ (buf + n ≤ command)

cleared :
    (m : Mem) (nb ab : ℕ)
    → clear_array 100 ab 0 (clear_array 10 nb 0 m) ≡ filled (filled m nb 10 0) ab 100 0
cleared m nb ab =
    clear_array-filled 100 ab 0 (clear_array 10 nb 0 m)
    ∙ (ap (λ k. filled k (ab + 0) 100 0) (clear_array-filled 10 nb 0 m)
        ∙ rw (add-zero nb, add-zero ab) refl)

-- A command of one word: with fuel for its length the parser ends at its zero byte, with the word in
-- the name's array and the argument's array cleared. Nothing bounds the word: its byte `k` goes to
-- byte `k` of the name's array also where `k` is 10 or more, past the array's end.
pub scan_command-OneWord :
    (command nb ab s e fuel : ℕ) (m : Mem)
    → OneWord m command s e
    → ClearOf command e nb (10 + e)
    → ClearOf command e ab 100
    → e + 2 < fuel
    → scan_command command nb ab fuel (initial_scan command nb ab m)
      ≡ some (
          again (record {
            i = e;
            name_starting_point = some s;
            name_ending_point = none;
            arg_starting_point = none;
            arg_ending_point = none;
            mem =
                placed (filled (filled m nb 10 0) ab 100 0) nb (e - s) (λ k. m (command + (s + k)));
          }))
unfolding initial_scan
scan_command-OneWord command nb ab s e fuel m w far_name far_arg enough =
    let m1 : Mem = filled (filled m nb 10 0) ab 100 0 in
    let g : ℕ → ℕ = λ k. m (command + (s + k)) in
    let short : s < e = w.some_name in
    let kept : (j : ℕ) → j ≤ e → m1 (command + j) ≡ m (command + j) = λ j le. ground arith in
    let text : (k : ℕ) → k < e - s → m1 (command + (s + k)) ≡ g k =
      λ k lt. kept (s + k) (omega arith) in
    let full : Scan = in_name s e (placed m1 nb (e - s) g) in
    let run : scan_command command nb ab fuel (at_front 0 m1)
        ≡ scan_command command nb ab (suc (fuel - e - 2)) full =
      read_name command nb ab fuel (suc (fuel - e - 2)) s e m1 g (omega arith) short
        (λ j lt. kept j (omega arith) ∙ w.front j lt)
        (λ k lt. w.name (s + k) (omega arith) (omega arith)) text (λ k lt. omega arith) in
    let last : full.mem (command + e) ≡ 0 =
      placed-other m1 nb (e - s) (command + e) g (omega arith) ∙ (kept e (omega arith) ∙ w.ended) in
    rw (cleared m nb ab) (run ∙ end_command command nb ab (fuel - e - 2) full last)

-- A command of two words, with the second from index `a` up to index `z`.
pub record TwoWords (m : Mem) (command s e a z : ℕ) : Type 0 where
  pub front : (j : ℕ) → j < s → m (command + j) ≡ b' '
  pub some_name : s < e
  pub name : (j : ℕ) → s ≤ j → j < e → IsLetter (m (command + j))
  pub some_gap : e < a
  pub gap : (j : ℕ) → e ≤ j → j < a → m (command + j) ≡ b' '
  pub some_arg : a < z
  pub arg : (j : ℕ) → a ≤ j → j < z → IsLetter (m (command + j))
  pub ended : m (command + z) ≡ 0

-- Memory with the two words in their arrays, each followed by zero bytes up to its array's end.
abbrev pub words_at : Mem → ℕ → ℕ → (ℕ → ℕ) → ℕ → ℕ → (ℕ → ℕ) → Mem
words_at m nb n g ab k h x =
    if within nb 10 x
    then (if ltb (x - nb) n then g (x - nb) else 0)
    else if within ab 100 x
    then (if ltb (x - ab) k then h (x - ab) else 0)
    else m x

words_at-steps :
    (m : Mem) (nb n ab k : ℕ) (g h : ℕ → ℕ)
    → n < 10
    → k < 100
    → (nb + 10 ≤ ab) ⊎ (ab + 100 ≤ nb)
    → placed (store (placed (filled (filled m nb 10 0) ab 100 0) nb n g) (nb + n) 0) ab k h
      ≡ words_at m nb n g ab k h
words_at-steps m nb n ab k g h hn hk apart = fun_ext λ x. ground arith

-- A command of two words, of at most 9 and at most 99 letters: with fuel for its length the parser
-- ends at its zero byte with the first word in the name's array and the second in the argument's,
-- both followed by zero bytes to the array's end, and with no other byte of memory changed.
pub scan_command-TwoWords :
    (command nb ab s e a z fuel : ℕ) (m : Mem)
    → TwoWords m command s e a z
    → e - s < 10
    → z - a < 100
    → ClearOf command z nb 10
    → ClearOf command z ab 100
    → (nb + 10 ≤ ab) ⊎ (ab + 100 ≤ nb)
    → z + 4 < fuel
    → scan_command command nb ab fuel (initial_scan command nb ab m)
      ≡ some (
          again (record {
            i = z;
            name_starting_point = some s;
            name_ending_point = some e;
            arg_starting_point = some a;
            arg_ending_point = none;
            mem =
                words_at m nb
                  (e - s)
                  (λ k. m (command + (s + k)))
                  ab
                  (z - a)
                  (λ k. m (command + (a + k)));
          }))
unfolding initial_scan
scan_command-TwoWords command nb ab s e a z fuel m w short_name short_arg far_name far_arg apart
      enough =
    let m1 : Mem = filled (filled m nb 10 0) ab 100 0 in
    let g : ℕ → ℕ = λ k. m (command + (s + k)) in
    let h : ℕ → ℕ = λ k. m (command + (a + k)) in
    let m2 : Mem = placed m1 nb (e - s) g in
    let m3 : Mem = store m2 (nb + (e - s)) 0 in
    let lt1 : s < e = w.some_name in
    let lt2 : e < a = w.some_gap in
    let lt3 : a < z = w.some_arg in
    let kept : (j : ℕ) → j ≤ z → m1 (command + j) ≡ m (command + j) = λ j le. ground arith in
    let kept2 : (j : ℕ) → j ≤ z → m2 (command + j) ≡ m (command + j) =
      λ j le. placed-other m1 nb (e - s) (command + j) g (omega arith) ∙ kept j le in
    let kept3 : (j : ℕ) → j ≤ z → m3 (command + j) ≡ m (command + j) =
      λ j le. ground (arith, kept2 j le) in
    let full : Scan = in_arg s e a z (placed m3 ab (z - a) h) in
    let rest : ℕ = fuel - z - 4 in
    let run : scan_command command nb ab fuel (at_front 0 m1)
        ≡ scan_command command nb ab (z - e + suc (suc (suc rest))) (in_name s e m2) =
      read_name command nb ab fuel (z - e + suc (suc (suc rest))) s e m1 g (omega arith) lt1
        (λ j lt. kept j (omega arith) ∙ w.front j lt)
        (λ k lt. w.name (s + k) (omega arith) (omega arith)) (λ k lt. kept (s + k) (omega arith))
        (λ k lt. omega arith) in
    let run2 : scan_command command nb ab (z - e + suc (suc (suc rest))) (in_name s e m2)
        ≡ scan_command command nb ab (suc rest) full =
      read_arg command nb ab (z - e + suc (suc (suc rest))) (suc rest) s e a z m2 h refl lt2 lt3
        (kept2 e (omega arith) ∙ w.gap e (omega arith) lt2)
        (λ j u v. kept3 j (omega arith) ∙ w.gap j u v)
        (λ k lt. w.arg (a + k) (omega arith) (omega arith)) (λ k lt. kept3 (a + k) (omega arith))
        (λ k lt. omega arith) in
    let last : full.mem (command + z) ≡ 0 =
      placed-other m3 ab (z - a) (command + z) h (omega arith)
      ∙ (kept3 z (omega arith) ∙ w.ended) in
    let mems : full.mem ≡ words_at m nb (e - s) g ab (z - a) h =
      words_at-steps m nb (e - s) ab (z - a) g h short_name short_arg apart in
    rw (cleared m nb ab) (
      run
      ∙ (run2
          ∙ (end_command command nb ab rest full last
              ∙ ap (λ x. some (again (in_arg s e a z x))) mems)))
