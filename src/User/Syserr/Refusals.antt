-- ===== src/User/Syserr/Refusals.antt =====
-- Calls that fail on a fresh process, and the tests' helpers on them.
use Prim.Native.String.{String}
use chap_os.Common.{
  ℕ, zero, suc, ◌+◌, ◌≤◌, ◌<◌, ◌≡◌, ◌≢◌, refl, ◌∙◌, arith, Option, some, List, [], true, Bool,
  codes, length, ltb, ℤ, pos, minus_one, Mem,
}
use chap_os.Pic.{Io, sti, cli}
use chap_os.Text.Length.{IsText, strlen_total}
use chap_os.FileSys.{stdin_ops, stdout_ops, to_uint32}
use chap_os.Process.{Kernel, mem_of, on_io, desc_of, vidmap}
use chap_os.Process.Files.{read, write, close}
use chap_os.Process.Dispatch.{Unusable, calls-Unusable}
use chap_os.Process.Entry.{Env, Machine, on_kernel, signed32, jump, main_syscall}
use chap_os.User.{Step, Calls, >>=-some}
use chap_os.User.Support.{ece391_strlen}
use chap_os.User.Support.Agreement.{support_agrees}
use chap_os.User.Io.{ece391_fdputs, say}
use chap_os.User.OnKernel.{kernel_calls}
use chap_os.User.Syserr.{expect_failure, verdict, all_fail}

-- The literal lies in memory, and is short enough for the fuel.
abbrev pub IsLiteral : ℕ → (List ℕ → ℕ) → Mem → String → Type 0
IsLiteral fuel lit m t = IsText m (lit (codes t)) (length (codes t)) × (length (codes t) < fuel)

-- A process as `execute` sets it up: descriptor 0 is the keyboard, 1 the screen, the others are not
-- in use; the tests' messages of success lie in memory.
pub record IsFresh (fuel : ℕ) (lit : List ℕ → ℕ) (m : Machine) : Type 0 where
  pub stdin_flags : (desc_of 0 m.kernel).flags ≡ 1
  pub stdin : (desc_of 0 m.kernel).fops_jmp_tb_ptr ≡ stdin_ops
  pub stdout_flags : (desc_of 1 m.kernel).flags ≡ 1
  pub stdout : (desc_of 1 m.kernel).fops_jmp_tb_ptr ≡ stdout_ops
  pub free : (fd : ℕ) → 2 ≤ fd → fd < 8 → (desc_of fd m.kernel).flags ≢ 1
  pub pass_1 : IsLiteral fuel lit (mem_of m.kernel) "err_neg_fd: PASS\n"
  pub pass_2 : IsLiteral fuel lit (mem_of m.kernel) "err_big_fd: PASS\n"
  pub pass_5 : IsLiteral fuel lit (mem_of m.kernel) "err_unopened: PASS\n"
  pub pass_6 : IsLiteral fuel lit (mem_of m.kernel) "err_vidmap: PASS\n"
  pub pass_7 : IsLiteral fuel lit (mem_of m.kernel) "err_stdin_out: PASS\n"
  pub pass_8 : IsLiteral fuel lit (mem_of m.kernel) "err_syscall_num: PASS\n"

-- The computation returns `v`.
pub record Returns {A : Type 0} (P : Machine → Type 0) (v : A) (result : Option (A × Machine))
    : Type 0 where
  pub after : Machine
  pub returns : result ≡ some (v, after)
  pub keeps : P after

abbrev pub Anything : Machine → Type 0
Anything m = Unit

module _ (e : Env) (registers fuel : ℕ) (lit : List ℕ → ℕ) where
  abbrev pub C : Calls
  C = kernel_calls e registers

  abbrev pub Fresh : Machine → Type 0
  Fresh = IsFresh fuel lit

  -- Nothing but the interrupt flag and the count of reads has changed.
  pub IsFresh-quiet :
      (f : Io → Io) (n : ℕ) (m : Machine)
      → Fresh m
      → Fresh (on_kernel (on_io f m.kernel) (record m { reads = n }))
  IsFresh-quiet f n m h = record {
    stdin_flags = h.stdin_flags;
    stdin = h.stdin;
    stdout_flags = h.stdout_flags;
    stdout = h.stdout;
    free = h.free;
    pass_1 = h.pass_1;
    pass_2 = h.pass_2;
    pass_5 = h.pass_5;
    pass_6 = h.pass_6;
    pass_7 = h.pass_7;
    pass_8 = h.pass_8;
  }

  -- A call that fails on every fresh process, and leaves it fresh.
  abbrev pub Refuses : Step Machine ℤ → Type 0
  Refuses call = (m : Machine) → Fresh m → Returns Fresh minus_one (call m)

  pub expect_failure-Returns :
      (call : Step Machine ℤ) (message : String) (fail : ℕ) (m : Machine)
      → Refuses call
      → Fresh m
      → Returns Fresh fail (expect_failure C fuel lit call message fail m)
  unfolding expect_failure
  expect_failure-Returns call message fail m refuses h =
      let r = refuses m h in
      record { after = r.after; returns = >>=-some call _ r.returns; keeps = r.keeps }

  pub all_fail-Returns :
      (left i : ℕ) (call : ℕ → Step Machine ℤ) (message : String) (fail : ℕ) (m : Machine)
      → ((j : ℕ) → i ≤ j → j < i + left → Refuses (call j))
      → Fresh m
      → Returns Fresh fail (all_fail C fuel lit left i call message fail m)
  unfolding all_fail
  all_fail-Returns zero i call message fail m refuses h = record {
    after = m;
    returns = refl;
    keeps = h;
  }
  all_fail-Returns (suc left) i call message fail m refuses h =
      let r =
        expect_failure-Returns (call i) message fail m (refuses i (omega arith) (omega arith)) h in
      let rest =
        all_fail-Returns left (i + 1) call message fail r.after
          (λ j le lt. refuses j (omega arith) (omega arith)) r.keeps in
      record {
        after = rest.after;
        returns =
            >>=-some (expect_failure C fuel lit (call i) message fail) _ r.returns ∙ rest.returns;
        keeps = rest.keeps;
      }

  -- Any literal is printed, whatever the screen's state.
  say-Returns :
      (t : String) (m : Machine)
      → IsLiteral fuel lit (mem_of m.kernel) t
      → Returns Anything tt (say C fuel lit t m)
  unfolding ece391_fdputs main_syscall jump write
  say-Returns t m h =
      let s = lit (codes t) in
      let n = length (codes t) in
      let len : ece391_strlen fuel (mem_of m.kernel) s ≡ some n =
        (support_agrees fuel (mem_of m.kernel) 0 s 0 0).0
        ∙ strlen_total fuel (mem_of m.kernel) s n h.0 h.1 in
      let r =
        write e.devices e.uninit (pos 1) s (signed32 (to_uint32 (pos n))) (on_io sti m.kernel) in
      record {
        after = on_kernel (on_io (λ io. sti (cli io)) r.1) m;
        returns = rw (ece391_fdputs, len) refl;
        keeps = tt;
      }

  pub verdict-Returns :
      (failed passed : String) (m : Machine)
      → IsLiteral fuel lit (mem_of m.kernel) passed
      → Returns Anything (pos 0) (verdict C fuel lit failed passed 0 m)
  unfolding verdict
  verdict-Returns failed passed m t =
      let r = say-Returns passed m t in
      record { after = r.after; returns = >>=-some (say C fuel lit passed) _ r.returns; keeps = tt }

  -- The kernel as a call finds it.
  abbrev pub trapped : Machine → Kernel
  trapped m = on_io sti m.kernel

  quiet : Io → Io
  quiet io = sti (cli (sti io))

  pub read-Refuses :
      (fd : ℤ) (buf : ℕ)
      → ((m : Machine)
          → Fresh m
          → (events : List Bool) (keys : List ℕ)
          → read e.layout events keys e.local (signed32 (to_uint32 fd)) buf (pos 31) (trapped m)
            ≡ some (minus_one, trapped m))
      → Refuses (λ m. main_syscall e (pos 3) (to_uint32 fd) buf 31 m)
  unfolding main_syscall jump quiet
  read-Refuses fd buf fails m h = record {
    after = on_kernel (on_io quiet m.kernel) (record m { reads = m.reads + 1 });
    returns = rw (fails m h (m.clock m.reads) (m.keys m.reads)) refl;
    keeps = IsFresh-quiet quiet (m.reads + 1) m h;
  }

  pub write-Refuses :
      (fd : ℤ) (buf : ℕ)
      → ((m : Machine)
          → Fresh m
          → write e.devices e.uninit (signed32 (to_uint32 fd)) buf (pos 31) (trapped m)
            ≡ (minus_one, trapped m))
      → Refuses (λ m. main_syscall e (pos 4) (to_uint32 fd) buf 31 m)
  unfolding main_syscall jump quiet
  write-Refuses fd buf fails m h = record {
    after = on_kernel (on_io quiet m.kernel) m;
    returns = rw (fails m h) refl;
    keeps = IsFresh-quiet quiet m.reads m h;
  }

  pub close-Refuses :
      (fd : ℤ)
      → ((m : Machine)
          → Fresh m
          → close e.devices e.uninit (signed32 (to_uint32 fd)) (trapped m) ≡ (minus_one, trapped m))
      → Refuses (λ m. main_syscall e (pos 6) (to_uint32 fd) registers registers m)
  unfolding main_syscall jump quiet
  close-Refuses fd fails m h = record {
    after = on_kernel (on_io quiet m.kernel) m;
    returns = rw (fails m h) refl;
    keeps = IsFresh-quiet quiet m.reads m h;
  }

  pub vidmap-Refuses :
      (p : ℕ) → p < 0x8000000 → Refuses (λ m. main_syscall e (pos 8) p registers registers m)
  unfolding main_syscall jump vidmap quiet
  vidmap-Refuses p low m h =
      let below : ltb p 0x8000000 ≡ true = ground arith in
      record {
        after = on_kernel (on_io quiet m.kernel) m;
        returns = rw below refl;
        keeps = IsFresh-quiet quiet m.reads m h;
      }

  -- A number that names no descriptor makes all three calls fail.
  pub Unusable-calls :
      (fd : ℤ) (buf : ℕ)
      → ((m : Machine) → Fresh m → Unusable (trapped m) (signed32 (to_uint32 fd)))
      → Refuses (λ m. main_syscall e (pos 3) (to_uint32 fd) buf 31 m)
        × Refuses (λ m. main_syscall e (pos 4) (to_uint32 fd) buf 31 m)
        × Refuses (λ m. main_syscall e (pos 6) (to_uint32 fd) registers registers m)
  Unusable-calls fd buf bad =
      let calls = λ (m : Machine) (h : Fresh m) (events : List Bool) (keys : List ℕ).
        calls-Unusable e.devices e.uninit e.layout events keys e.local buf (signed32 (to_uint32 fd))
          (pos 31) (trapped m) (bad m h) in
      (
        read-Refuses fd buf (λ m h events keys. (calls m h events keys).0),
        write-Refuses fd buf (λ m h. (calls m h [] []).1),
        close-Refuses fd (λ m h. (calls m h [] []).2),
      )
