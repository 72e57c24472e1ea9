-- ===== src/FileSys/Lookup.antt =====
-- `read_dentry_by_name` and `read_dentry_by_index`: which entry is found, and what is filled in.
use chap_os.Common.{
  ℕ, zero, suc, ◌+◌, ◌-◌, ◌≤◌, ◌<◌, ◌≡◌, ◌≢◌, ◌⊎◌, inl, inr, refl, ap, ◌∙◌, fun_ext, arith,
  Bool-cases, false, leb, ◌==◌, if◌then◌else◌, Mem, within, copied, load32, ℤ, pos, negsuc,
  minus_one,
}
use chap_os.Block.{store32}
use chap_os.Text.{strncmp, strncpy}
use chap_os.Text.Copy.{padded, strncpy-padded}
use chap_os.Text.Compare.{IsBytes, Agree, strncmp-Agree}
use chap_os.FileSys.{
  FileSys, dir_entry, fill_dentry, search_dentries, read_dentry_by_name, read_dentry_by_index,
  is_zero,
}

store32-load32 :
    (m : Mem) (p q : ℕ)
    → ((r : ℕ) → q ≤ r → r < q + 4 → m r < 256)
    → store32 m p (load32 m q) ≡ copied m p q 4
store32-load32 m p q h = fun_ext λ a. ground (
  arith,
  h q (omega arith) (omega arith),
  h (q + 1) (omega arith) (omega arith),
  h (q + 2) (omega arith) (omega arith),
  h (q + 3) (omega arith) (omega arith),
)

copied-fields :
    (m : Mem) (dentry entry : ℕ)
    → (dentry + 40 ≤ entry + 32) ⊎ (entry + 40 ≤ dentry)
    → copied (copied m (dentry + 32) (entry + 32) 4) (dentry + 36) (entry + 36) 4
      ≡ copied m (dentry + 32) (entry + 32) 8
copied-fields m dentry entry h = fun_ext λ a. ground arith

-- A filled dentry: the padded name, then the entry's type and inode number, byte by byte.
abbrev pub filled_in : Mem → ℕ → ℕ → ℕ → Mem
filled_in m name entry dentry a =
    if within dentry 32 a
    then padded m name (a - dentry)
    else if within (dentry + 32) 8 a
    then m (entry + (a - dentry))
    else m a

fields_in :
    (m m1 : Mem) (name entry dentry a : ℕ)
    → m1 a ≡ (if within dentry 32 a then padded m name (a - dentry) else m a)
    → ((r : ℕ) → entry + 32 ≤ r → r < entry + 40 → m1 r ≡ m r)
    → copied m1 (dentry + 32) (entry + 32) 8 a ≡ filled_in m name entry dentry a
fields_in m m1 name entry dentry a at1 old = elim (Bool-cases (within (dentry + 32) 8 a)) [
  | inl e ↦
      let low : within dentry 32 a ≡ false = ground arith in
      let r : entry + 32 + (a - (dentry + 32)) ≡ entry + (a - dentry) = ground arith in
      rw (e, low, r) (old (entry + (a - dentry)) (ground arith) (ground arith))
  | inr e ↦ rw e at1
]

fill_dentry-filled_in :
    (m : Mem) (name entry dentry a : ℕ)
    → IsBytes m
    → (dentry ≤ name) ⊎ (name + 32 ≤ dentry)
    → (dentry + 40 ≤ entry + 32) ⊎ (entry + 40 ≤ dentry)
    → fill_dentry m name entry dentry a ≡ filled_in m name entry dentry a
unfolding fill_dentry
fill_dentry-filled_in m name entry dentry a b h1 h2 =
    let m1 : Mem = strncpy m dentry name 32 in
    let at1 : (r : ℕ) → m1 r ≡ (if within dentry 32 r then padded m name (r - dentry) else m r) =
      λ r. strncpy-padded m dentry name 32 r h1 in
    let old : (r : ℕ) → entry + 32 ≤ r → r < entry + 40 → m1 r ≡ m r =
      λ r l u. at1 r ∙ ground arith in
    let byte : (r : ℕ) → entry + 32 ≤ r → r < entry + 40 → m1 r < 256 =
      λ r l u. rw (old r l u) (b r) in
    let m2 : Mem = copied m1 (dentry + 32) (entry + 32) 4 in
    let type_field : store32 m1 (dentry + 32) (load32 m1 (entry + 32)) ≡ m2 =
      store32-load32 m1 (dentry + 32) (entry + 32) (λ r l u. byte r l (omega arith)) in
    let inode_field : store32 m2 (dentry + 36) (load32 m2 (entry + 36))
        ≡ copied m2 (dentry + 36) (entry + 36) 4 =
      store32-load32 m2 (dentry + 36) (entry + 36)
        (λ r l u. ground (arith, byte r (omega arith) (omega arith))) in
    let last : copied m1 (dentry + 32) (entry + 32) 8 a ≡ filled_in m name entry dentry a =
      fields_in m m1 name entry dentry a (at1 a) old in
    ap (λ (k : Mem). store32 k (dentry + 36) (load32 k (entry + 36)) a) type_field
    ∙ (ap (λ (k : Mem). k a) (inode_field ∙ copied-fields m1 dentry entry h2) ∙ last)

not_zero : (r : ℤ) → r ≢ pos 0 → is_zero r ≡ false
not_zero (pos n) h = elim (Bool-cases (n == 0)) [
  | inl e ↦ let z : n ≡ 0 = ground arith in absurd (h (ap pos z))
  | inr e ↦ e
]
not_zero (negsuc n) h = refl

search_dentries-first :
    (left : ℕ) (fs : FileSys) (fname dentry i k : ℕ) (m : Mem)
    → IsBytes m
    → i ≤ k
    → k < i + left
    → Agree m fname (dir_entry fs k) 32
    → ((j : ℕ) → j < k → ¬ Agree m fname (dir_entry fs j) 32)
    → search_dentries left fs fname dentry i m
      ≡ (pos 0, fill_dentry m fname (dir_entry fs k) dentry)
unfolding search_dentries
search_dentries-first zero fs fname dentry i k m b le lt here before = absurd (omega arith)
search_dentries-first (suc left) fs fname dentry i k m b le lt here before =
    elim (Bool-cases (i == k)) [
      | inl e ↦
          let same : i ≡ k = ground arith in
          let found : strncmp m fname (dir_entry fs k) 32 ≡ pos 0 =
            (strncmp-Agree m fname (dir_entry fs k) 32 b).1 here in
          rw (same, found) refl
      | inr e ↦
          let other : is_zero (strncmp m fname (dir_entry fs i) 32) ≡ false =
            not_zero (strncmp m fname (dir_entry fs i) 32)
              (λ z. before i (ground arith) ((strncmp-Agree m fname (dir_entry fs i) 32 b).0 z)) in
          rw other (
            search_dentries-first left fs fname dentry (i + 1) k m b (ground arith) (omega arith)
              here before)
    ]

search_dentries-missing :
    (left : ℕ) (fs : FileSys) (fname dentry i : ℕ) (m : Mem)
    → IsBytes m
    → ((j : ℕ) → j < i + left → ¬ Agree m fname (dir_entry fs j) 32)
    → search_dentries left fs fname dentry i m ≡ (minus_one, m)
unfolding search_dentries
search_dentries-missing zero fs fname dentry i m b none_is = refl
search_dentries-missing (suc left) fs fname dentry i m b none_is =
    let other : is_zero (strncmp m fname (dir_entry fs i) 32) ≡ false =
      not_zero (strncmp m fname (dir_entry fs i) 32)
        (λ z. none_is i (omega arith) ((strncmp-Agree m fname (dir_entry fs i) 32 b).0 z)) in
    rw other
      (search_dentries-missing left fs fname dentry (i + 1) m b (λ j lt. none_is j (omega arith)))

-- `read_dentry_by_name` finds the first of the 63 entries whose 32-byte name, padded with zeros after
-- its end, is that of `fname`: it returns 0, and `*dentry` then holds the padded name and that
-- entry's type and inode number, with no other byte of memory changed, when `*dentry` lies apart.
pub read_dentry_by_name-first :
    (fs : FileSys) (fname dentry k a : ℕ) (m : Mem)
    → IsBytes m
    → k < 63
    → Agree m fname (dir_entry fs k) 32
    → ((j : ℕ) → j < k → ¬ Agree m fname (dir_entry fs j) 32)
    → (dentry ≤ fname) ⊎ (fname + 32 ≤ dentry)
    → (dentry + 40 ≤ dir_entry fs k + 32) ⊎ (dir_entry fs k + 40 ≤ dentry)
    → ((read_dentry_by_name fs fname dentry m).0 ≡ pos 0)
      × ((read_dentry_by_name fs fname dentry m).1 a ≡ filled_in m fname (dir_entry fs k) dentry a)
unfolding read_dentry_by_name
read_dentry_by_name-first fs fname dentry k a m b lt here before h1 h2 =
    let found : search_dentries 63 fs fname dentry 0 m
        ≡ (pos 0, fill_dentry m fname (dir_entry fs k) dentry) =
      search_dentries-first 63 fs fname dentry 0 k m b (omega arith) lt here before in
    (
      ap (λ r. r.0) found,
      ap (λ r. r.1 a) found ∙ fill_dentry-filled_in m fname (dir_entry fs k) dentry a b h1 h2,
    )

-- Where none of the 63 entries has the name `fname`, `read_dentry_by_name` returns -1 and leaves memory
-- as it was.
pub read_dentry_by_name-missing :
    (fs : FileSys) (fname dentry : ℕ) (m : Mem)
    → IsBytes m
    → ((j : ℕ) → j < 63 → ¬ Agree m fname (dir_entry fs j) 32)
    → read_dentry_by_name fs fname dentry m ≡ (minus_one, m)
unfolding read_dentry_by_name
read_dentry_by_name-missing fs fname dentry m b none_is =
    search_dentries-missing 63 fs fname dentry 0 m b none_is

pub read_dentry_by_index-entry :
    (fs : FileSys) (index dentry a : ℕ) (m : Mem)
    → IsBytes m
    → index < 63
    → m (dir_entry fs index) ≢ 0
    → (dentry + 40 ≤ dir_entry fs index) ⊎ (dir_entry fs index + 40 ≤ dentry)
    → ((read_dentry_by_index fs index dentry m).0 ≡ pos 0)
      × ((read_dentry_by_index fs index dentry m).1 a
          ≡ filled_in m (dir_entry fs index) (dir_entry fs index) dentry a)
unfolding read_dentry_by_index
read_dentry_by_index-entry fs index dentry a m b lt named h =
    let known : leb 63 index ≡ false = ground arith in
    let some_name : (m (dir_entry fs index) == 0) ≡ false = ground arith in
    rw (known, some_name)
      (
        refl,
        fill_dentry-filled_in m (dir_entry fs index) (dir_entry fs index) dentry a b (omega arith)
            (omega arith),
      )

pub read_dentry_by_index-refused :
    (fs : FileSys) (index dentry : ℕ) (m : Mem)
    → (63 ≤ index) ⊎ (m (dir_entry fs index) ≡ 0)
    → read_dentry_by_index fs index dentry m ≡ (minus_one, m)
unfolding read_dentry_by_index
read_dentry_by_index-refused fs index dentry m h = ground arith
