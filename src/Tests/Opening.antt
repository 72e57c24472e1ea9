-- ===== src/Tests/Opening.antt =====
-- The test of the system calls that opens names which no file has.
use chap_os.Common.{
  ℕ, zero, suc, ◌+◌, ◌≢◌, false, [], ◌∷◌, ltb, inl, inr, Bool-cases, ◌-◌, ◌<◌, ◌≡◌, refl, arith,
  Bool, true, not, ◌==◌, if◌then◌else◌, codes, length, get_or, within, tested, tested_at, List, Mem,
  pos,
}
use chap_os.Text.Compare.{IsBytes}
use chap_os.Text.Copy.{padded}
use chap_os.FileSys.{dir_entry}
use chap_os.Process.{set_mem}
use chap_os.Process.Entry.{Machine}
use chap_os.User.OnKernel.{kernel_calls}
use chap_os.User.Syserr.{err_open}
use chap_os.User.Syserr.Refusals.{IsLiteral, Returns, Anything}
use chap_os.User.Syserr.Unlisted.{IsMissing, err_open-Returns}
use chap_os.Tests.{image, image-IsBytes, kernel, mounted}
use chap_os.Tests.Programs.{env, started}

-- Memory with a text at `at` in the `n` bytes there.
abbrev with_text : ℕ → ℕ → List ℕ → Mem → Mem
with_text start n t m a = if within start n a then get_or t (a - start) 0 else m a

-- The names lie at 300, 400 and 500, and the message of success at 550.
abbrev names : Mem
names =
    with_text 300 7 (codes "helloo")
      (with_text 400 5 (codes "shel") (with_text 550 50 (codes "err_open: PASS\n") image))

abbrev name_at : List ℕ → ℕ
name_at t =
    if length t == 6 then 300 else if length t == 4 then 400 else if length t == 0 then 500 else 550

abbrev opening : Machine
opening = record started { kernel = set_mem names kernel }

are_bytes : List ℕ → Bool
are_bytes [] = true
are_bytes (c ∷ cs) = if ltb c 256 then are_bytes cs else false

get_or-byte : (t : List ℕ) (i : ℕ) → are_bytes t ≡ true → get_or t i 0 < 256
unfolding are_bytes
get_or-byte [] i h = omega arith
get_or-byte (c ∷ cs) zero h = ground (arith, h)
get_or-byte (c ∷ cs) (suc i) h = get_or-byte cs i (ground (arith, h))

with_text-IsBytes :
    (start n : ℕ) (t : List ℕ) (m : Mem)
    → are_bytes t ≡ true
    → IsBytes m
    → IsBytes (with_text start n t m)
with_text-IsBytes start n t m h b a = elim (Bool-cases (within start n a)) [
  | inl e ↦ rw e (get_or-byte t (a - start) h)
  | inr e ↦ rw e (b a)
]

names-IsBytes : IsBytes names
unfolding are_bytes
names-IsBytes = with_text-IsBytes 300 7 (codes "helloo") _ refl (
    with_text-IsBytes 400 5 (codes "shel") _ refl
      (with_text-IsBytes 550 50 (codes "err_open: PASS\n") image refl image-IsBytes))

differ : (u v : ℕ) → not (v == u) ≡ true → u ≢ v
differ u v h = ground arith

abbrev other_first : ℕ → ℕ → Bool
other_first c j = not (names (dir_entry mounted j) == c)

missing : (name : ℕ) → tested 63 (other_first (names name)) ≡ true → IsMissing mounted names name
unfolding padded
missing name others j lt same =
    let other : other_first (names name) j ≡ true =
      tested_at 63 (other_first (names name)) j others lt in
    let first : names name ≡ names (dir_entry mounted j) = same 0 (omega arith) in
    differ (names name) (names (dir_entry mounted j)) other first

nonzero_lem : (v : ℕ) → not (v == 0) ≡ true → v ≢ 0
nonzero_lem v e = ground arith

passed : IsLiteral 60 name_at names "err_open: PASS\n"
unfolding tested
passed = (
  record {
    ends = refl;
    nonzero = λ i lt.
        nonzero_lem (names (550 + i)) (tested_at 15 (λ j. not (names (550 + j) == 0)) i refl lt);
  },
  omega arith,
)

err_open-Returns_example :
    Returns Anything (pos 0) (err_open (kernel_calls env 7) 60 name_at opening)
unfolding tested
err_open-Returns_example = err_open-Returns env 7 60 name_at opening (record {
  bytes = names-IsBytes;
  no_longer = missing 300 refl;
  no_shorter = missing 400 refl;
  empty = refl;
  pass_4 = passed;
})
