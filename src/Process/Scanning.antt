-- ===== src/Process/Scanning.antt =====
-- The phases of the command parser's loop: the spaces, the letters and the ends of words.
use chap_os.Common.{
  ℕ, zero, suc, ◌+◌, ◌-◌, ◌≤◌, ◌<◌, ◌≡◌, ◌≢◌, ◌⊎◌, refl, ap, sym, ◌∙◌, fun_ext, arith, true, false,
  ◌==◌, none, some, Mem, store, placed, placed-other, placed-zero, placed-suc, filled, filled-zero,
}
use chap_os.Process.Command.{Scan, again, clear_array, scan_round, scan_command}

abbrev pub at_front : ℕ → Mem → Scan
at_front i m = record {
  i = i;
  name_starting_point = none;
  name_ending_point = none;
  arg_starting_point = none;
  arg_ending_point = none;
  mem = m;
}

abbrev pub in_name : ℕ → ℕ → Mem → Scan
in_name s i m = record (at_front i m) { name_starting_point = some s }

abbrev pub in_gap : ℕ → ℕ → ℕ → Mem → Scan
in_gap s e i m = record (in_name s i m) { name_ending_point = some e }

abbrev pub in_arg : ℕ → ℕ → ℕ → ℕ → Mem → Scan
in_arg s e a i m = record (in_gap s e i m) { arg_starting_point = some a }

-- A character of a word: neither a space nor the end.
abbrev pub IsLetter : ℕ → Type 0
IsLetter c = (c ≢ 0) × (c ≢ b' ')

pub clear_array-filled :
    (left buf i : ℕ) (m : Mem) → clear_array left buf i m ≡ filled m (buf + i) left 0
unfolding clear_array
clear_array-filled zero buf i m = sym (filled-zero m (buf + i) 0)
clear_array-filled (suc left) buf i m =
    clear_array-filled left buf (i + 1) (store m (buf + i) 0) ∙ fun_ext λ a. ground arith

letter :
    (m : Mem) (buf k n a : ℕ) (g : ℕ → ℕ)
    → k ≤ n
    → (a < buf) ⊎ (buf + n ≤ a)
    → m a ≡ g k
    → placed m buf k g a ≡ g k
letter m buf k n a g le h e = placed-other m buf k a g (omega arith) ∙ e

module _ (command nb ab : ℕ) where
  skip_front :
      (left total fuel i e : ℕ) (m : Mem)
      → total ≡ left + fuel
      → i + left ≡ e
      → ((j : ℕ) → i ≤ j → j < e → m (command + j) ≡ b' ')
      → scan_command command nb ab total (at_front i m)
        ≡ scan_command command nb ab fuel (at_front e m)
  unfolding scan_command scan_round
  skip_front zero total fuel i e m t l sp =
      let same : total ≡ fuel = omega arith in
      let here : i ≡ e = omega arith in rw (same, here) refl
  skip_front (suc left) zero fuel i e m t l sp = absurd (omega arith)
  skip_front (suc left) (suc total) fuel i e m t l sp =
      let more : (m (command + i) == 0) ≡ false = ground (arith, sp i) in
      let space : (m (command + i) == b' ') ≡ true = ground (arith, sp i) in
      rw (more, space)
        (skip_front left total fuel (i + 1) e m (omega arith) (omega arith)
          (λ j u v. sp j (omega arith) v))

  skip_gap :
      (left total fuel i s f e : ℕ) (m : Mem)
      → total ≡ left + fuel
      → i + left ≡ e
      → ((j : ℕ) → i ≤ j → j < e → m (command + j) ≡ b' ')
      → scan_command command nb ab total (in_gap s f i m)
        ≡ scan_command command nb ab fuel (in_gap s f e m)
  unfolding scan_command scan_round
  skip_gap zero total fuel i s f e m t l sp =
      let same : total ≡ fuel = omega arith in
      let here : i ≡ e = omega arith in rw (same, here) refl
  skip_gap (suc left) zero fuel i s f e m t l sp = absurd (omega arith)
  skip_gap (suc left) (suc total) fuel i s f e m t l sp =
      let more : (m (command + i) == 0) ≡ false = ground (arith, sp i) in
      let space : (m (command + i) == b' ') ≡ true = ground (arith, sp i) in
      rw (more, space)
        (skip_gap left total fuel (i + 1) s f e m (omega arith) (omega arith)
          (λ j u v. sp j (omega arith) v))

  start_name :
      (total i : ℕ) (m : Mem)
      → IsLetter (m (command + i))
      → scan_command command nb ab (suc total) (at_front i m)
        ≡ scan_command command nb ab total (in_name i i m)
  unfolding scan_command scan_round
  start_name total i m c =
      let more : (m (command + i) == 0) ≡ false = ground arith in
      let space : (m (command + i) == b' ') ≡ false = ground arith in rw (more, space) refl

  start_arg :
      (total s e i : ℕ) (m : Mem)
      → IsLetter (m (command + i))
      → scan_command command nb ab (suc total) (in_gap s e i m)
        ≡ scan_command command nb ab total (in_arg s e i i m)
  unfolding scan_command scan_round
  start_arg total s e i m c =
      let more : (m (command + i) == 0) ≡ false = ground arith in
      let space : (m (command + i) == b' ') ≡ false = ground arith in rw (more, space) refl

  -- The letters of a word go one by one to its array; the command is not overwritten.
  name_letters :
      (left total fuel s i e : ℕ) (m : Mem) (g : ℕ → ℕ)
      → total ≡ left + fuel
      → i + left ≡ e
      → s ≤ i
      → ((k : ℕ) → k < e - s → IsLetter (g k))
      → ((k : ℕ) → k < e - s → m (command + (s + k)) ≡ g k)
      → ((k : ℕ) → k < e - s → (command + (s + k) < nb) ⊎ (nb + (e - s) ≤ command + (s + k)))
      → scan_command command nb ab total (in_name s i (placed m nb (i - s) g))
        ≡ scan_command command nb ab fuel (in_name s e (placed m nb (e - s) g))
  unfolding scan_command scan_round
  name_letters zero total fuel s i e m g t l le word text free =
      let same : total ≡ fuel = omega arith in
      let here : i ≡ e = omega arith in rw (same, here) refl
  name_letters (suc left) zero fuel s i e m g t l le word text free = absurd (omega arith)
  name_letters (suc left) (suc total) fuel s i e m g t l le word text free =
      let k : ℕ = i - s in
      let here : s + k ≡ i = omega arith in
      let char : placed m nb k g (command + i) ≡ g k =
        letter m nb k (e - s) (command + i) g (omega arith) (rw here at (free k (omega arith)))
          (rw here at (text k (omega arith))) in
      let c : IsLetter (g k) = word k (omega arith) in
      let more : (g k == 0) ≡ false = ground arith in
      let space : (g k == b' ') ≡ false = ground arith in
      let next : k + 1 ≡ i + 1 - s = omega arith in
      rw (char, more, space, placed-suc m nb k g, next)
        (name_letters left total fuel s (i + 1) e m g (omega arith) (omega arith) (omega arith) word
          text free)

  end_name :
      (total s e : ℕ) (m : Mem)
      → m (command + e) ≡ b' '
      → scan_command command nb ab (suc total) (in_name s e m)
        ≡ scan_command command nb ab total (in_gap s e e (store m (nb + (e - s)) 0))
  unfolding scan_command scan_round
  end_name total s e m c =
      let more : (m (command + e) == 0) ≡ false = ground arith in
      let space : (m (command + e) == b' ') ≡ true = ground arith in rw (more, space) refl

  arg_letters :
      (left total fuel s e a i z : ℕ) (m : Mem) (g : ℕ → ℕ)
      → total ≡ left + fuel
      → i + left ≡ z
      → a ≤ i
      → ((k : ℕ) → k < z - a → IsLetter (g k))
      → ((k : ℕ) → k < z - a → m (command + (a + k)) ≡ g k)
      → ((k : ℕ) → k < z - a → (command + (a + k) < ab) ⊎ (ab + (z - a) ≤ command + (a + k)))
      → scan_command command nb ab total (in_arg s e a i (placed m ab (i - a) g))
        ≡ scan_command command nb ab fuel (in_arg s e a z (placed m ab (z - a) g))
  unfolding scan_command scan_round
  arg_letters zero total fuel s e a i z m g t l le word text free =
      let same : total ≡ fuel = omega arith in
      let here : i ≡ z = omega arith in rw (same, here) refl
  arg_letters (suc left) zero fuel s e a i z m g t l le word text free = absurd (omega arith)
  arg_letters (suc left) (suc total) fuel s e a i z m g t l le word text free =
      let k : ℕ = i - a in
      let here : a + k ≡ i = omega arith in
      let char : placed m ab k g (command + i) ≡ g k =
        letter m ab k (z - a) (command + i) g (omega arith) (rw here at (free k (omega arith)))
          (rw here at (text k (omega arith))) in
      let c : IsLetter (g k) = word k (omega arith) in
      let more : (g k == 0) ≡ false = ground arith in
      let space : (g k == b' ') ≡ false = ground arith in
      let next : k + 1 ≡ i + 1 - a = omega arith in
      rw (char, more, space, placed-suc m ab k g, next)
        (arg_letters left total fuel s e a (i + 1) z m g (omega arith) (omega arith) (omega arith)
          word text free)

  pub end_command :
      (total : ℕ) (s : Scan)
      → s.mem (command + s.i) ≡ 0
      → scan_command command nb ab (suc total) s ≡ some (again s)
  unfolding scan_command
  end_command total s c =
      let ended : (s.mem (command + s.i) == 0) ≡ true = ground arith in rw ended refl

  -- The front and the name together.
  pub read_name :
      (total fuel s e : ℕ) (m : Mem) (g : ℕ → ℕ)
      → total ≡ e + suc fuel
      → s < e
      → ((j : ℕ) → j < s → m (command + j) ≡ b' ')
      → ((k : ℕ) → k < e - s → IsLetter (g k))
      → ((k : ℕ) → k < e - s → m (command + (s + k)) ≡ g k)
      → ((k : ℕ) → k < e - s → (command + (s + k) < nb) ⊎ (nb + (e - s) ≤ command + (s + k)))
      → scan_command command nb ab total (at_front 0 m)
        ≡ scan_command command nb ab fuel (in_name s e (placed m nb (e - s) g))
  read_name total fuel s e m g t lt front word text free =
      let here : s + 0 ≡ s = omega arith in
      let none_yet : s - s ≡ 0 = omega arith in
      let char : m (command + s) ≡ g 0 = rw here at (text 0 (omega arith)) in
      let first : IsLetter (m (command + s)) = rw char (word 0 (omega arith)) in
      let empty : placed m nb (s - s) g ≡ m = rw none_yet (placed-zero m nb g) in
      skip_front s total (suc (e - s + fuel)) 0 s m (omega arith) (omega arith) (λ j u v. front j v)
      ∙ (start_name (e - s + fuel) s m first
          ∙ (ap (λ x. scan_command command nb ab (e - s + fuel) (in_name s s x)) (sym empty)
              ∙ name_letters (e - s) (e - s + fuel) fuel s s e m g refl (omega arith) (omega arith)
                  word text free))

  -- The space after the name, the gap and the argument together.
  pub read_arg :
      (total fuel s e a z : ℕ) (m : Mem) (g : ℕ → ℕ)
      → total ≡ z - e + suc (suc fuel)
      → e < a
      → a < z
      → m (command + e) ≡ b' '
      → let m' = store m (nb + (e - s)) 0 in
        ((j : ℕ) → e ≤ j → j < a → m' (command + j) ≡ b' ')
        → ((k : ℕ) → k < z - a → IsLetter (g k))
        → ((k : ℕ) → k < z - a → m' (command + (a + k)) ≡ g k)
        → ((k : ℕ) → k < z - a → (command + (a + k) < ab) ⊎ (ab + (z - a) ≤ command + (a + k)))
        → scan_command command nb ab total (in_name s e m)
          ≡ scan_command command nb ab fuel (in_arg s e a z (placed m' ab (z - a) g))
  read_arg total fuel s e a z m g t lt lt' space gap word text free =
      let m' : Mem = store m (nb + (e - s)) 0 in
      let here : a + 0 ≡ a = omega arith in
      let none_yet : a - a ≡ 0 = omega arith in
      let char : m' (command + a) ≡ g 0 = rw here at (text 0 (omega arith)) in
      let first : IsLetter (m' (command + a)) = rw char (word 0 (omega arith)) in
      let empty : placed m' ab (a - a) g ≡ m' = rw none_yet (placed-zero m' ab g) in
      let more : total ≡ suc (a - e + suc (z - a + fuel)) = omega arith in
      rw more (
        end_name (a - e + suc (z - a + fuel)) s e m space
        ∙ (skip_gap (a - e) (a - e + suc (z - a + fuel)) (suc (z - a + fuel)) e s e a m' refl
              (omega arith) gap
            ∙ (start_arg (z - a + fuel) s e a m' first
                ∙ (ap (λ x. scan_command command nb ab (z - a + fuel) (in_arg s e a a x))
                      (sym empty)
                    ∙ arg_letters (z - a) (z - a + fuel) fuel s e a a z m' g refl (omega arith)
                        (omega arith) word text free))))
