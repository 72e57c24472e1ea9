-- ===== src/Keyboard/Line.antt =====
-- The line that is being typed, as a list of characters, newest first.
use chap_os.Common.{
  fun_ext, ◌∙◌, within, Bool-cases, false, inl, inr, refl, suc, zero, ap, ℕ, ◌+◌, ◌-◌, ◌≤◌, ◌<◌,
  ◌≡◌, ◌⊎◌, ◌≢◌, arith, List, [], ◌∷◌, length, ltb, leb, ◌==◌, if◌then◌else◌, Mem, store, pos,
}
use native.Mathlib.Nat.{add-zero}
use chap_os.Keyboard.{Console, type_key, press_bskp, press_enter, read_keys, read_line}

-- The bytes from index 0 on are the line, oldest character first.
abbrev pub Spells : Mem → List ℕ → Type 0
Spells keys [] = Unit {0}
Spells keys (k ∷ ks) = (keys (length ks) ≡ k) × Spells keys ks

pub Spells-store :
    (keys : Mem) (i v : ℕ) (ks : List ℕ)
    → length ks ≤ i
    → Spells keys ks
    → Spells (store keys i v) ks
Spells-store keys i v [] h s = tt
Spells-store keys i v (k ∷ ks) h s = (ground arith, Spells-store keys i v ks (omega arith) s.1)

abbrev pub line_buffer : Console → Mem
line_buffer c = c.buffers c.cur_term_id

-- The buffer of the current terminal holds the line `ks`, and the index its length.
pub record Holds (c : Console) (ks : List ℕ) : Type 0 where
  pub index : c.buffer_index ≡ length ks
  pub spelled : Spells (line_buffer c) ks

-- Typing a character appends it to the line while there are fewer than 128, and is ignored after
-- that, with nothing printed.
type_key-Holds :
    (k : ℕ) (ks : List ℕ) (c : Console)
    → Holds c ks
    → length ks ≤ 128
    → ((length ks < 128) × Holds (type_key k c) (k ∷ ks)) ⊎ ((length ks ≡ 128) × (type_key k c ≡ c))
unfolding type_key
type_key-Holds k ks c h fits = ground (arith, Spells-store (line_buffer c) c.buffer_index k ks)

-- The line less its newest character.
abbrev pub rest_of : List ℕ → List ℕ
rest_of [] = []
rest_of (k ∷ ks) = ks

-- Backspace takes the last character off the line, and leaves an empty line empty.
press_bskp-Holds : (ks : List ℕ) (c : Console) → Holds c ks → Holds (press_bskp c) (rest_of ks)
unfolding press_bskp
press_bskp-Holds [] c h = ground arith
press_bskp-Holds (k ∷ ks) c h =
    ground (arith, Spells-store (line_buffer c) (c.buffer_index - 1) 0 ks)

-- Memory once the first `n` bytes of the buffer have been copied to `buf`.
abbrev pub received : Mem → ℕ → ℕ → Mem → Mem
received keys buf n m a = if within buf n a then keys (a - buf) else m a

received-zero : (keys m : Mem) (buf : ℕ) → m ≡ received keys buf 0 m
received-zero keys m buf = fun_ext λ a. ground arith

received-suc :
    (keys m : Mem) (buf i : ℕ)
    → store (received keys buf i m) (buf + i) (keys i) ≡ received keys buf (i + 1) m
received-suc keys m buf i = fun_ext λ a. ground arith

read_keys-text :
    (left len i n buf : ℕ) (keys m : Mem)
    → ((k : ℕ) → k < i + len → keys k ≢ 0)
    → keys (i + len) ≡ 0
    → len < left
    → i ≤ n
    → read_keys left (pos n) buf i keys (received keys buf i m) ≡ (
      pos (if ltb n (i + len) then n else i + len),
      received keys buf (if leb n (i + len) then n else i + len + 1) m,
    )
unfolding read_keys
read_keys-text zero len i n buf keys m t z h le = absurd (omega arith)
read_keys-text (suc left) len i n buf keys m t z h le = elim (Bool-cases (leb n i)) [
  | inl e ↦
      let same : n ≡ i = ground arith in
      let a : (if ltb n (i + len) then n else i + len) ≡ i = ground arith in
      let b : (if leb n (i + len) then n else i + len + 1) ≡ i = ground arith in rw (e, a, b) refl
  | inr e ↦ elim (Bool-cases (keys i == 0)) [
    | inl e0 ↦
        let none_left : len ≡ 0 = ground (arith, t i) in
        let a : (if ltb n (i + len) then n else i + len) ≡ i = ground arith in
        let b : (if leb n (i + len) then n else i + len + 1) ≡ i + 1 = ground arith in
        rw (e, e0, a, b, received-suc keys m buf i) refl
    | inr e0 ↦
        let some_left : len ≢ 0 = ground arith in
        let sum : i + 1 + (len - 1) ≡ i + len = omega arith in
        rw (e, e0, received-suc keys m buf i)
          (rw sum at (
            read_keys-text left (len - 1) (i + 1) n buf keys m (λ k lt. t k (omega arith))
              (rw sum z) (omega arith) (ground arith)))
  ]
]

-- A line of fewer than 128 characters, none of them zero, that Enter ends is read as it was typed:
-- a read of `n` bytes returns the smaller of `n` and the line's length, copies that many of the
-- characters that the buffer had before Enter to `buf`, followed by a zero byte if there is room, and
-- changes nothing else of the memory that Enter left; the next line starts empty.
pub read_line-typed :
    (buf n : ℕ) (c : Console)
    → c.buffer_index < 128
    → ((k : ℕ) → k < c.buffer_index → line_buffer c k ≢ 0)
    → ((read_line buf (pos n) (press_enter c)).0
        ≡ pos (if ltb n c.buffer_index then n else c.buffer_index))
      × ((read_line buf (pos n) (press_enter c)).1.display.mem
          ≡ received
              (store (line_buffer c) c.buffer_index 0)
              buf
              (if leb n c.buffer_index then n else c.buffer_index + 1)
              (press_enter c).display.mem)
      × ((read_line buf (pos n) (press_enter c)).1.buffer_index ≡ 0)
unfolding read_line press_enter
read_line-typed buf n c h t =
    let zero_add : 0 + c.buffer_index ≡ c.buffer_index = omega arith in
    let keys : Mem = line_buffer (press_enter c) in
    let m : Mem = (press_enter c).display.mem in
    let run : read_keys 128 (pos n) buf 0 keys m ≡ (
      pos (if ltb n c.buffer_index then n else c.buffer_index),
      received keys buf (if leb n c.buffer_index then n else c.buffer_index + 1) m,
    ) =
      ap (read_keys 128 (pos n) buf 0 keys) (received-zero keys m buf)
      ∙ rw zero_add at (
          read_keys-text 128 c.buffer_index 0 n buf keys m (λ k lt. ground (arith, t k))
            (ground arith) h (omega arith)) in
    let typed : keys ≡ store (line_buffer c) c.buffer_index 0 = fun_ext λ i. ground arith in
    let copied : ℕ = if leb n c.buffer_index then n else c.buffer_index + 1 in
    (ap (λ p. p.0) run, ap (λ p. p.1) run ∙ ap (λ x. received x buf copied m) typed, refl)

read_keys-full :
    (left i n buf : ℕ) (keys m : Mem)
    → ((k : ℕ) → k < i + left → keys k ≢ 0)
    → i + left ≤ n
    → read_keys left (pos n) buf i keys (received keys buf i m)
      ≡ (pos 0, received keys buf (i + left) m)
unfolding read_keys
read_keys-full zero i n buf keys m t h = rw (add-zero i) refl
read_keys-full (suc left) i n buf keys m t h =
    let more : leb n i ≡ false = ground arith in
    let char : (keys i == 0) ≡ false = ground (arith, t i) in
    let sum : i + 1 + left ≡ i + suc left = omega arith in
    rw (more, char, received-suc keys m buf i)
      (rw sum at
        (read_keys-full left (i + 1) n buf keys m (λ k lt. t k (omega arith)) (omega arith)))

-- A buffer of 128 characters, none of them zero, does not come back as typed: Enter writes its zero
-- byte to index 128, one past the array, and a read of 128 bytes or more then copies all 128
-- characters to `buf` and returns 0.
pub read_line-full :
    (buf n : ℕ) (c : Console)
    → c.buffer_index ≡ 128
    → ((k : ℕ) → k < 128 → line_buffer c k ≢ 0)
    → 128 ≤ n
    → (line_buffer (press_enter c) 128 ≡ 0)
      × ((read_line buf (pos n) (press_enter c)).0 ≡ pos 0)
      × ((read_line buf (pos n) (press_enter c)).1.display.mem
          ≡ received (line_buffer c) buf 128 (press_enter c).display.mem)
unfolding read_line press_enter
read_line-full buf n c e t h =
    let keys : Mem = line_buffer (press_enter c) in
    let m : Mem = (press_enter c).display.mem in
    let run : read_keys 128 (pos n) buf 0 keys m ≡ (pos 0, received keys buf 128 m) =
      ap (read_keys 128 (pos n) buf 0 keys) (received-zero keys m buf)
      ∙ read_keys-full 128 0 n buf keys m (λ k lt. ground (arith, t k)) h in
    let same : received keys buf 128 m ≡ received (line_buffer c) buf 128 m =
      fun_ext λ a. ground arith in
    (ground arith, ap (λ p. p.0) run, ap (λ p. p.1) run ∙ same)
