-- ===== src/User/Cat/Whole.antt =====
-- The loop of `cat` on a file: it ends, and what it has printed then.
use chap_os.Common.{
  ℕ, zero, suc, ◌+◌, ◌-◌, ◌*◌, ◌%◌, ◌^◌, ◌≤◌, ◌<◌, ◌≡◌, ◌⊎◌, refl, sym, ap, ◌∙◌, arith, inl, inr,
  Bool-cases, ◌==◌, false, Option, some, List, [], ◌∷◌, ◌++◌, Mem, ℤ, pos,
}
use mathlib.Core.Path.{subst}
use mathlib.Core.List.{append-nil, append_assoc}
use native.Mathlib.Nat.{add-zero, zero-add}
use chap_os.Screen.{Display}
use chap_os.Screen.Cursor.{InScreen}
use chap_os.Screen.Printf.Pieces.{bytes_at}
use chap_os.FileSys.{FileSys, get_file_size, inode_address}
use chap_os.FileSys.Data.{readable, file_byte}
use chap_os.Process.{Kernel, mem_of}
use chap_os.Process.Entry.{Env, Machine, on_kernel}
use chap_os.User.{Calls, >>=-some}
use chap_os.User.OnKernel.{kernel_calls}
use chap_os.User.Programs.{cat_loop}
use chap_os.User.Cat.{visible, file_bytes, shown_size, IsFile, IsReading}
use chap_os.User.Cat.Agreeing.{delivered-bytes}
use chap_os.User.Cat.Round.{
  after_read, after_write, read-delivered, read-IsReading, read-end, write-visible, write-IsReading,
  display-InScreen,
}
use chap_os.User.Cat.Entered.{read_call, write_call}

-- The `left` bytes of the file from `a + n` on follow the `n` from `a` on.
visible-file_bytes :
    (fs : FileSys) (m : Mem) (q a n left : ℕ)
    → visible (file_bytes fs m q a (n + left))
      ≡ visible (file_bytes fs m q a n) ++ visible (file_bytes fs m q (a + n) left)
visible-file_bytes fs m q a zero left = rw (zero-add left, add-zero a) refl
visible-file_bytes fs m q a (suc n) left =
    let more : suc n + left ≡ suc (n + left) = omega arith in
    let next : a + suc n ≡ a + 1 + n = omega arith in
    elim (Bool-cases (file_byte fs m q a == 0)) [
      | inl e ↦ rw (more, next, e) (visible-file_bytes fs m q (a + 1) n left)
      | inr e ↦
          rw (more, next, e)
            (ap (λ vs. file_byte fs m q a ∷ vs) (visible-file_bytes fs m q (a + 1) n left))
    ]

-- Positions between two turns: a multiple of 1024 inside the file, or the end.
abbrev IsBetween : ℕ → ℕ → Type 0
IsBetween size p = ((p % 1024 ≡ 0) × (p < size)) ⊎ (p ≡ shown_size size)

next_place :
    (size p : ℕ)
    → p % 1024 ≡ 0
    → p < size
    → let n = readable size p 1024 in
      IsBetween size (p + n)
      × (n ≤ 1024)
      × (0 < n)
      × (n + (shown_size size - (p + n)) ≡ shown_size size - p)
next_place size p whole inside = (ground arith, ground arith, ground arith, ground arith)

-- The loop has ended, with the value 0: the position is `p`, and `cs` has been printed.
pub record Ended (fs : FileSys) (m : Mem) (inode buf fd : ℕ) (d : Display) (p : ℕ) (cs : List ℕ)
    (result : Option (ℤ × Machine)) : Type 0 where
  pub after : Machine
  pub returns : result ≡ some (pos 0, after)
  pub ended : IsReading fs m inode buf fd d p cs after.kernel

module _ (e : Env) (registers fuel : ℕ) (lit : List ℕ → ℕ) (fs : FileSys) (m : Mem)
    (inode buf fd : ℕ) (d : Display) (f : IsFile fs m inode buf) (start : InScreen d)
    (small : fd < 8) where
  abbrev calls : Calls
  calls = kernel_calls e registers

  abbrev size : ℕ
  size = get_file_size fs inode m

  abbrev bytes : (a n : ℕ) → List ℕ
  bytes a n = file_bytes fs m (inode_address fs inode) a n

  -- At the end of the file the loop ends.
  end_of_loop :
      (rounds p : ℕ) (cs : List ℕ) (t : Machine)
      → IsReading fs m inode buf fd d p cs t.kernel
      → size ≤ p
      → p < 2 ^ 32
      → Ended fs m inode buf fd d p cs (cat_loop calls fuel lit (suc rounds) (pos fd) buf t)
  unfolding cat_loop
  end_of_loop rounds p cs t r past short =
      let k1 : Kernel = after_read fs inode buf fd p 0 t.kernel in
      let r1 : IsReading fs m inode buf fd d p cs k1 =
        subst (λ q. IsReading fs m inode buf fd d q cs k1) (add-zero p)
          (read-IsReading e fs m inode buf fd d f start small p 0 cs t.kernel r (omega arith)) in
      let got = read_call e registers fd buf (pos 0) k1 t small r.running r1.running (λ events keys.
        read-end e fs m inode buf fd d f start small events keys p cs t.kernel r past short) in
      record {
        after = on_kernel k1 (record t { reads = t.reads + 1 });
        returns = >>=-some (calls.read (pos fd) buf (pos 1024)) _ got;
        ended = r1;
      }

  -- Inside it the loop prints what it has read, and goes on.
  record Turn (rounds p n : ℕ) (cs : List ℕ) (t : Machine) : Type 0 where
    next : Machine
    goes_on :
        cat_loop calls fuel lit (suc rounds) (pos fd) buf t
        ≡ cat_loop calls fuel lit rounds (pos fd) buf next
    reading : IsReading fs m inode buf fd d (p + n) (cs ++ visible (bytes p n)) next.kernel

  printing_round :
      (rounds p : ℕ) (cs : List ℕ) (t : Machine)
      → IsReading fs m inode buf fd d p cs t.kernel
      → p < size
      → Turn rounds p (readable size p 1024) cs t
  unfolding cat_loop
  printing_round rounds p cs t r inside =
      let n : ℕ = readable size p 1024 in
      let le : n ≤ 1024 = ground arith in
      let some_read : (n == 0) ≡ false = ground arith in
      let k1 : Kernel = after_read fs inode buf fd p n t.kernel in
      let r1 : IsReading fs m inode buf fd d (p + n) cs k1 =
        read-IsReading e fs m inode buf fd d f start small p n cs t.kernel r le in
      let t1 : Machine = on_kernel k1 (record t { reads = t.reads + 1 }) in
      let got = read_call e registers fd buf (pos n) k1 t small r.running r1.running (λ events keys.
        read-delivered e fs m inode buf fd d f start small events keys p cs t.kernel r inside) in
      let same : bytes_at (mem_of k1) buf n ≡ bytes p n =
        rw (add-zero buf, add-zero p) at
          (delivered-bytes fs m (mem_of t.kernel) inode buf f r.agrees p n 0 n (omega arith)
            (ground (arith, f.small))) in
      let k2 : Kernel = after_write (visible (bytes p n)) k1 in
      let r2 : IsReading fs m inode buf fd d (p + n) (cs ++ visible (bytes p n)) k2 =
        write-IsReading e fs m inode buf fd d f start small (p + n) cs (visible (bytes p n)) k1
          r1 in
      let put = write_call e registers buf n (pos n) k2 t1 le r1.running r2.running (
        rw same at (
          write-visible e fs m inode buf fd d f start small n k1 r1.out_active r1.out_table
            (display-InScreen e fs m inode buf fd d f start small (p + n) cs k1 r1) le)) in
      record {
        next = on_kernel k2 t1;
        goes_on =
            >>=-some (calls.read (pos fd) buf (pos 1024)) _ got
            ∙ rw some_read (>>=-some (calls.write (pos 1) buf (pos n)) _ put);
        reading = r2;
      }

  -- The rest of the loop, from a position between two turns.
  rest_of_loop :
      (rounds p : ℕ) (cs : List ℕ) (t : Machine)
      → IsReading fs m inode buf fd d p cs t.kernel
      → IsBetween size p
      → size + 1024 ≤ p + 1024 * rounds
      → Ended fs m inode buf fd d
          (shown_size size)
          (cs ++ visible (bytes p (shown_size size - p)))
          (cat_loop calls fuel lit rounds (pos fd) buf t)
  rest_of_loop zero p cs t r between enough = absurd (ground (arith, between))
  rest_of_loop (suc rounds) p cs t r (inr at_end) enough =
      let none_left : shown_size size - p ≡ 0 = omega arith in
      let past : size ≤ p = ground arith in
      rw (none_left, append-nil cs)
        (subst
          (λ q.
            Ended fs m inode buf fd d q cs (cat_loop calls fuel lit (suc rounds) (pos fd) buf t))
          at_end (end_of_loop rounds p cs t r past (ground (arith, f.small))))
  rest_of_loop (suc rounds) p cs t r (inl (whole, inside)) enough =
      let n : ℕ = readable size p 1024 in
      let turn : Turn rounds p n cs t = printing_round rounds p cs t r inside in
      let (between, le, more, count) = next_place size p whole inside in
      let rest =
        rest_of_loop rounds (p + n) (cs ++ visible (bytes p n)) turn.next turn.reading between
          (ground (arith, enough)) in
      rw
        (
          turn.goes_on,
          sym count,
          visible-file_bytes fs m (inode_address fs inode) p n (shown_size size - (p + n)),
          sym (
              append_assoc cs (visible (bytes p n))
                (visible (bytes (p + n) (shown_size size - (p + n))))),
        )
        rest

-- `cat` on a file of this kernel, opened at its start, with the kernel's own calls: with one round for
-- each 1024 bytes and one more, the loop ends and returns 0. It has printed the file's bytes but for
-- the zero bytes, and, unless the size is a multiple of 1024, the byte after the file. The screen is
-- as these characters leave it; all other memory but the buffer is as it was.
pub cat_loop-Ended :
    (e : Env) (registers fuel : ℕ) (lit : List ℕ → ℕ) (rounds inode buf fd : ℕ) (t : Machine)
    → let k = t.kernel in
      let m = mem_of k in
      let d = k.console.display in
      let size = get_file_size k.fs inode m in
      IsFile k.fs m inode buf
      → InScreen d
      → fd < 8
      → IsReading k.fs m inode buf fd d 0 [] k
      → size + 1024 ≤ 1024 * rounds
      → Ended k.fs m inode buf fd d
          (shown_size size)
          (visible (file_bytes k.fs m (inode_address k.fs inode) 0 (shown_size size)))
          (cat_loop (kernel_calls e registers) fuel lit rounds (pos fd) buf t)
cat_loop-Ended e registers fuel lit rounds inode buf fd t f start small r enough =
    let k : Kernel = t.kernel in
    let m : Mem = mem_of k in
    let size : ℕ = get_file_size k.fs inode m in
    let between : IsBetween size 0 = ground arith in
    let whole : shown_size size - 0 ≡ shown_size size = omega arith in
    subst
      (λ n.
        Ended k.fs m inode buf fd k.console.display (shown_size size)
          (visible (file_bytes k.fs m (inode_address k.fs inode) 0 n))
          (cat_loop (kernel_calls e registers) fuel lit rounds (pos fd) buf t))
      whole
      (rest_of_loop e registers fuel lit k.fs m inode buf fd k.console.display f start small rounds
        0 [] t r between (ground (arith, enough)))
