-- ===== src/Tests/Commands.antt =====
-- The command parser on two commands.
use chap_os.Common.{
  ◌+◌, ◌≡◌, refl, arith, inl, none, some, ◌==◌, leb, ◌&&◌, if◌then◌else◌, Mem, filled, placed,
}
use chap_os.Process.Command.{again, scan_command, initial_scan}
use chap_os.Process.Parsing.{
  OneWord, TwoWords, words_at, scan_command-OneWord, scan_command-TwoWords,
}

-- " ls" at 100: a space and a word. " cat me" at 200: a second word, of two letters, from index 5 on.
abbrev commands : Mem
commands a =
    if a == 100
    then b' '
    else if leb 101 a && leb a 102
    then b'l'
    else if a == 200
    then b' '
    else if leb 201 a && leb a 203
    then b'c'
    else if a == 204
    then b' '
    else if leb 205 a && leb a 206
    then b'm'
    else 0

ls_OneWord : OneWord commands 100 1 3
ls_OneWord = record {
  front = λ j lt. ground arith;
  some_name = omega arith;
  name = λ j lo hi. ground arith;
  ended = refl;
}

cat_TwoWords : TwoWords commands 200 1 4 5 7
cat_TwoWords = record {
  front = λ j lt. ground arith;
  some_name = omega arith;
  name = λ j lo hi. ground arith;
  some_gap = omega arith;
  gap = λ j lo hi. ground arith;
  some_arg = omega arith;
  arg = λ j lo hi. ground arith;
  ended = refl;
}

scan_command-OneWord_example :
    scan_command 100 1000 2000 6 (initial_scan 100 1000 2000 commands)
    ≡ some (
        again (record {
          i = 3;
          name_starting_point = some 1;
          name_ending_point = none;
          arg_starting_point = none;
          arg_ending_point = none;
          mem =
              placed
                (filled (filled commands 1000 10 0) 2000 100 0)
                1000
                2
                (λ k. commands (100 + (1 + k)));
        }))
scan_command-OneWord_example =
    scan_command-OneWord 100 1000 2000 1 3 6 commands ls_OneWord (inl (omega arith))
      (inl (omega arith)) (omega arith)

scan_command-TwoWords_example :
    scan_command 200 1000 2000 12 (initial_scan 200 1000 2000 commands)
    ≡ some (
        again (record {
          i = 7;
          name_starting_point = some 1;
          name_ending_point = some 4;
          arg_starting_point = some 5;
          arg_ending_point = none;
          mem =
              words_at commands 1000 3
                (λ k. commands (200 + (1 + k)))
                2000
                2
                (λ k. commands (200 + (5 + k)));
        }))
scan_command-TwoWords_example =
    scan_command-TwoWords 200 1000 2000 1 4 5 7 12 commands cat_TwoWords (omega arith) (omega arith)
      (inl (omega arith)) (inl (omega arith)) (inl (omega arith)) (omega arith)
