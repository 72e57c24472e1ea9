-- ===== src/User/Io.antt =====
-- What the programs do in each step: print a text, read and write a byte of their arrays.
use Prim.Native.String.{String}
use chap_os.Common.{ℕ, suc, ◌+◌, ◌-◌, none, some, List, codes, store, ℤ, pos, negsuc}
use chap_os.User.{Step, Calls}
use chap_os.User.Support.{ece391_strlen}

-- `&buf[i]`
abbrev pub at_index : ℕ → ℤ → ℕ
at_index buf (pos n) = buf + n
at_index buf (negsuc n) = buf - suc n

module _ (C : Calls) where
  open C use {State, mem, set_mem, write}

  abbrev pub peek : ℕ → Step State ℕ
  peek a s = some (mem s a, s)

  abbrev pub poke : ℕ → ℕ → Step State (Unit {0})
  poke a v s = some (tt, set_mem (store (mem s) a v) s)

  unfoldable pub ece391_fdputs : (fuel : ℕ) → ℤ → ℕ → Step State (Unit {0})
  ece391_fdputs fuel fd s st = elim (ece391_strlen fuel (mem st) s) [
    | none ↦ none
    | some n ↦ elim (write fd s (pos n) st) [ none ↦ none | some (r, st') ↦ some (tt, st') ]
  ]

  -- A literal on the standard output.
  abbrev pub say : (fuel : ℕ) → (List ℕ → ℕ) → String → Step State (Unit {0})
  say fuel lit t = ece391_fdputs fuel (pos 1) (lit (codes t))
