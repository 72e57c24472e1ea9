-- ===== src/FileSys/Listing.antt =====
-- `dir_read`: one directory entry after the other.
use chap_os.Common.{
  ℕ, ◌+◌, ◌-◌, ◌%◌, ◌^◌, ◌≤◌, ◌<◌, ◌≡◌, ◌≢◌, ◌⊎◌, inl, inr, refl, ap, ◌∙◌, arith, true, Bool-cases,
  if◌then◌else◌, Mem, within, copied, ℤ, pos,
}
use chap_os.Block.Copy.{memcpy-copied}
use chap_os.Text.Copy.{padded}
use chap_os.Text.Compare.{IsBytes}
use chap_os.FileSys.{FileSys, Pcb, dir_entry, dir_read, read_dentry_by_index, set_file_pos}
use chap_os.FileSys.Lookup.{filled_in, read_dentry_by_index-entry, read_dentry_by_index-refused}

name_out :
    (m m' : Mem) (entry local buf a : ℕ)
    → ((r : ℕ) → m' r ≡ filled_in m entry entry local r)
    → copied m' buf local 32 a
      ≡ (if within buf 32 a then padded m entry (a - buf) else filled_in m entry entry local a)
name_out m m' entry local buf a h = elim (Bool-cases (within buf 32 a)) [
  | inl e ↦
      let name : within local 32 (local + (a - buf)) ≡ true = ground arith in
      let k : local + (a - buf) - local ≡ a - buf = omega arith in
      rw e (h (local + (a - buf)) ∙ rw (name, k) refl)
  | inr e ↦ rw e (h a)
]

-- `dir_read` on a position below 63 that has a name returns 32 and moves the position one on. The 32
-- bytes at `buf` become the entry's name, padded with zeros after its end; outside `buf` and the
-- local dentry no byte changes. `nbytes` plays no part, also where it is less than 32.
pub dir_read-entry :
    (fs : FileSys) (local fd buf a : ℕ) (nbytes : ℤ) (p : Pcb) (m : Mem)
    → IsBytes m
    → (p.f_descs fd).file_pos < 63
    → m (dir_entry fs (p.f_descs fd).file_pos) ≢ 0
    → (local + 40 ≤ dir_entry fs (p.f_descs fd).file_pos)
      ⊎ (dir_entry fs (p.f_descs fd).file_pos + 40 ≤ local)
    → (buf + 32 ≤ local) ⊎ (local + 40 ≤ buf)
    → ((dir_read fs local fd buf nbytes p m).0 ≡ pos 32)
      × ((dir_read fs local fd buf nbytes p m).1 ≡ set_file_pos fd ((p.f_descs fd).file_pos + 1) p)
      × ((dir_read fs local fd buf nbytes p m).2 a ≡ (
          if within buf 32 a
          then padded m (dir_entry fs (p.f_descs fd).file_pos) (a - buf)
          else filled_in m
              (dir_entry fs (p.f_descs fd).file_pos)
              (dir_entry fs (p.f_descs fd).file_pos)
              local
              a))
unfolding dir_read
dir_read-entry fs local fd buf a nbytes p m b lt named h1 h2 =
    let i : ℕ = (p.f_descs fd).file_pos in
    let found : (r : ℕ)
        → ((read_dentry_by_index fs i local m).0 ≡ pos 0)
          × ((read_dentry_by_index fs i local m).1 r
              ≡ filled_in m (dir_entry fs i) (dir_entry fs i) local r) =
      λ r. read_dentry_by_index-entry fs i local r m b lt named h1 in
    let small : (i + 1) % 2 ^ 32 ≡ i + 1 = omega arith in
    let m' : Mem = (read_dentry_by_index fs i local m).1 in
    rw ((found 0).0, small)
      (
        refl,
        refl,
        ap (λ (k : Mem). k a) (memcpy-copied m' buf local 32 (omega arith))
            ∙ name_out m m' (dir_entry fs i) local buf a (λ r. (found r).1),
      )

-- On an empty name, or past the last entry, `dir_read` returns 0, changes no memory and starts again from the first entry.
pub dir_read-end :
    (fs : FileSys) (local fd buf : ℕ) (nbytes : ℤ) (p : Pcb) (m : Mem)
    → (63 ≤ (p.f_descs fd).file_pos) ⊎ (m (dir_entry fs (p.f_descs fd).file_pos) ≡ 0)
    → dir_read fs local fd buf nbytes p m ≡ (pos 0, set_file_pos fd 0 p, m)
unfolding dir_read
dir_read-end fs local fd buf nbytes p m h =
    rw (read_dentry_by_index-refused fs (p.f_descs fd).file_pos local m h) refl
