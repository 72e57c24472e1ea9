-- ===== src/User/Syserr/Unlisted.antt =====
-- The test that opens names which no file has.
use Prim.Native.String.{String}
use chap_os.Common.{
  ℕ, ◌<◌, ◌≡◌, refl, ◌∙◌, inl, inr, Bool-cases, ◌==◌, List, codes, ℤ, pos, minus_one, some, Mem,
}
use chap_os.Pic.{Devices, Io, sti, cli}
use chap_os.Text.Compare.{IsBytes, Agree}
use chap_os.FileSys.{FileSys, dir_entry}
use chap_os.FileSys.Lookup.{read_dentry_by_name-missing}
use chap_os.Process.{Kernel, mem_of, on_io}
use chap_os.Process.Files.{open_call}
use chap_os.Process.Entry.{Env, Machine, on_kernel, jump, main_syscall}
use chap_os.User.{Step, Calls, >>=-some}
use chap_os.User.OnKernel.{kernel_calls}
use chap_os.User.Syserr.{expect_failure, err_open}
use chap_os.User.Syserr.Refusals.{IsLiteral, Returns, Anything, verdict-Returns}

-- None of the 63 directory entries has the name at `name`.
abbrev pub IsMissing : FileSys → Mem → ℕ → Type 0
IsMissing fs m name = (j : ℕ) → j < 63 → ¬ Agree m name (dir_entry fs j) 32

-- The names that the test opens, and its message of success, are in memory.
pub record IsUnlisted (fuel : ℕ) (lit : List ℕ → ℕ) (k : Kernel) : Type 0 where
  pub bytes : IsBytes (mem_of k)
  pub no_longer : IsMissing k.fs (mem_of k) (lit (codes "helloo"))
  pub no_shorter : IsMissing k.fs (mem_of k) (lit (codes "shel"))
  pub empty : mem_of k (lit (codes "")) ≡ 0
  pub pass_4 : IsLiteral fuel lit (mem_of k) "err_open: PASS\n"

-- Opening an empty name, or one that no entry has, fails and changes nothing.
open_call-missing :
    (devices : Devices) (uninit entry filename : ℕ) (k : Kernel)
    → IsBytes (mem_of k)
    → IsMissing k.fs (mem_of k) filename
    → open_call devices uninit entry filename k ≡ (minus_one, k)
unfolding open_call
open_call-missing devices uninit entry filename k b missing = elim (Bool-cases (filename == 0)) [
  | inl e ↦ rw e refl
  | inr e ↦ elim (Bool-cases (mem_of k filename == 0)) [
    | inl none_there ↦ rw (e, none_there) refl
    | inr named ↦
        rw (e, named, read_dentry_by_name-missing k.fs filename entry (mem_of k) b missing) refl
  ]
]

open_call-empty :
    (devices : Devices) (uninit entry filename : ℕ) (k : Kernel)
    → mem_of k filename ≡ 0
    → open_call devices uninit entry filename k ≡ (minus_one, k)
unfolding open_call
open_call-empty devices uninit entry filename k h = elim (Bool-cases (filename == 0)) [
  | inl e ↦ rw e refl
  | inr e ↦ rw (e, h) refl
]

quiet : Io → Io
quiet io = sti (cli (sti io))

module _ (e : Env) (registers fuel : ℕ) (lit : List ℕ → ℕ) where
  abbrev C : Calls
  C = kernel_calls e registers

  abbrev quieted : Machine → Machine
  quieted m = on_kernel (on_io quiet m.kernel) m

  -- A failing call in the test.
  failed_call :
      (call : Step Machine ℤ) (message : String) (fail : ℕ) (m next : Machine)
      → call m ≡ some (minus_one, next)
      → expect_failure C fuel lit call message fail m ≡ some (fail, next)
  unfolding expect_failure
  failed_call call message fail m next h = >>=-some call _ h

  refused_open :
      (filename : ℕ) (message : String) (fail : ℕ) (m : Machine)
      → open_call e.devices e.uninit e.entry filename (on_io sti m.kernel)
        ≡ (minus_one, on_io sti m.kernel)
      → expect_failure C fuel lit (C.open_call filename) message fail m ≡ some (fail, quieted m)
  unfolding main_syscall jump quiet
  refused_open filename message fail m h =
      failed_call (C.open_call filename) message fail m (quieted m) (rw h refl)

  -- The fourth test passes, that is it returns 0: where memory holds bytes, no directory entry has the
  -- name that lies where the test's "helloo" does, or its "shel", and its empty name is empty, `open`
  -- refuses all three. The test's message of success is in memory; the process is in any state.
  pub err_open-Returns :
      (m : Machine)
      → IsUnlisted fuel lit m.kernel
      → Returns Anything (pos 0) (err_open C fuel lit m)
  unfolding err_open quiet
  err_open-Returns m h =
      let missed = open_call-missing e.devices e.uninit e.entry in
      let m1 : Machine = quieted m in
      let m2 : Machine = quieted m1 in
      let m3 : Machine = quieted m2 in
      let x1 =
        refused_open (lit (codes "helloo")) "'helloo' fail\n" 0 m
          (missed (lit (codes "helloo")) (on_io sti m.kernel) h.bytes h.no_longer) in
      let x2 =
        refused_open (lit (codes "shel")) "'shel' fail\n" 0 m1
          (missed (lit (codes "shel")) (on_io sti m1.kernel) h.bytes h.no_shorter) in
      let x3 = refused_open (lit (codes "")) "empty string fail\n" 0 m2 (
        open_call-empty e.devices e.uninit e.entry (lit (codes "")) (on_io sti m2.kernel)
          h.empty) in
      let v =
        verdict-Returns e registers fuel lit "err_open: FAIL\n" "err_open: PASS\n" m3 h.pass_4 in
      record {
        after = v.after;
        returns =
            >>=-some
              (expect_failure C fuel lit (C.open_call (lit (codes "helloo"))) "'helloo' fail\n" 0) _
              x1
            ∙ (>>=-some
                  (expect_failure C fuel lit (C.open_call (lit (codes "shel"))) "'shel' fail\n" 0) _
                  x2
                ∙ (>>=-some
                      (expect_failure C fuel lit (C.open_call (lit (codes "")))
                        "empty string fail\n" 0)
                      _ x3
                    ∙ v.returns));
        keeps = tt;
      }
