-- ===== src/User/Syserr/Passing.antt =====
-- The kernel passes the tests of its error paths.
use Prim.Native.String.{String}
use chap_os.Common.{ℕ, ◌≤◌, ◌<◌, ◌≡◌, refl, ◌∙◌, arith, inl, inr, List, ℤ, pos, minus_one}
use chap_os.Pic.{sti, cli}
use chap_os.FileSys.{to_uint32}
use chap_os.Process.{mem_of, on_io}
use chap_os.Process.Files.{close}
use chap_os.Process.Dispatch.{Unusable, negative, past_end, inactive, write-stdin, read-stdout}
use chap_os.Process.Entry.{
  Env, Machine, on_kernel, signed32, main_syscall, main_syscall-rejects, run_call,
}
use chap_os.User.{Step, ◌>>=◌, >>=-some}
use chap_os.User.OnKernel.{kernel_calls}
use chap_os.User.Syserr.{
  neg_fd, big_fd, expect_failure, verdict, all_fail, err_neg_fd, err_big_fd, err_unopened,
  err_vidmap, err_stdin_out, err_syscall_num,
}
use chap_os.User.Syserr.Refusals.{
  IsLiteral, IsFresh, IsFresh-quiet, Returns, Anything, Refuses, expect_failure-Returns,
  all_fail-Returns, verdict-Returns, read-Refuses, write-Refuses, close-Refuses, vidmap-Refuses,
  Unusable-calls,
}

module _ (e : Env) (registers fuel : ℕ) (lit : List ℕ → ℕ) where
  -- Three calls that are all refused, and then the verdict.
  three :
      (c1 c2 c3 : Step Machine ℤ) (t1 t2 t3 failed passed : String) (m : Machine)
      → Refuses e registers fuel lit c1
      → Refuses e registers fuel lit c2
      → Refuses e registers fuel lit c3
      → ((m' : Machine) → IsFresh fuel lit m' → IsLiteral fuel lit (mem_of m'.kernel) passed)
      → IsFresh fuel lit m
      → Returns Anything (pos 0) (
          (do
            f1 ← expect_failure (kernel_calls e registers) fuel lit c1 t1 0
            f2 ← expect_failure (kernel_calls e registers) fuel lit c2 t2 f1
            f3 ← expect_failure (kernel_calls e registers) fuel lit c3 t3 f2
            verdict (kernel_calls e registers) fuel lit failed passed f3)
            m)
  three c1 c2 c3 t1 t2 t3 failed passed m r1 r2 r3 text h =
      let x1 = expect_failure-Returns e registers fuel lit c1 t1 0 m r1 h in
      let x2 = expect_failure-Returns e registers fuel lit c2 t2 0 x1.after r2 x1.keeps in
      let x3 = expect_failure-Returns e registers fuel lit c3 t3 0 x2.after r3 x2.keeps in
      let v =
        verdict-Returns e registers fuel lit failed passed x3.after (text x3.after x3.keeps) in
      record {
        after = v.after;
        returns =
            >>=-some (expect_failure (kernel_calls e registers) fuel lit c1 t1 0) _ x1.returns
            ∙ (>>=-some (expect_failure (kernel_calls e registers) fuel lit c2 t2 0) _ x2.returns
                ∙ (>>=-some (expect_failure (kernel_calls e registers) fuel lit c3 t3 0) _
                      x3.returns
                    ∙ v.returns));
        keeps = tt;
      }

  err_neg_fd-Returns :
      (buf : ℕ) (m : Machine)
      → IsFresh fuel lit m
      → Returns Anything (pos 0) (err_neg_fd (kernel_calls e registers) fuel lit buf m)
  unfolding err_neg_fd
  err_neg_fd-Returns buf m h =
      let r = Unusable-calls e registers fuel lit neg_fd buf (λ m h. negative _) in
      three _ _ _ "read fail\n" "write fail\n" "close fail\n" "err_neg_fd: FAIL\n"
        "err_neg_fd: PASS\n" m r.0 r.1 r.2 (λ m h. h.pass_1) h

  err_big_fd-Returns :
      (buf : ℕ) (m : Machine)
      → IsFresh fuel lit m
      → Returns Anything (pos 0) (err_big_fd (kernel_calls e registers) fuel lit buf m)
  unfolding err_big_fd
  err_big_fd-Returns buf m h =
      let r = Unusable-calls e registers fuel lit big_fd buf (λ m h. past_end _ (omega arith)) in
      three _ _ _ "read fail\n" "write fail\n" "close fail\n" "err_big_fd: FAIL\n"
        "err_big_fd: PASS\n" m r.0 r.1 r.2 (λ m h. h.pass_2) h

  -- Two calls that are refused, and then the verdict.
  two :
      (c1 c2 : Step Machine ℤ) (t1 t2 failed passed : String) (m : Machine)
      → Refuses e registers fuel lit c1
      → Refuses e registers fuel lit c2
      → ((m' : Machine) → IsFresh fuel lit m' → IsLiteral fuel lit (mem_of m'.kernel) passed)
      → IsFresh fuel lit m
      → Returns Anything (pos 0) (
          (do
            f1 ← expect_failure (kernel_calls e registers) fuel lit c1 t1 0
            f2 ← expect_failure (kernel_calls e registers) fuel lit c2 t2 f1
            verdict (kernel_calls e registers) fuel lit failed passed f2)
            m)
  two c1 c2 t1 t2 failed passed m r1 r2 text h =
      let x1 = expect_failure-Returns e registers fuel lit c1 t1 0 m r1 h in
      let x2 = expect_failure-Returns e registers fuel lit c2 t2 0 x1.after r2 x1.keeps in
      let v =
        verdict-Returns e registers fuel lit failed passed x2.after (text x2.after x2.keeps) in
      record {
        after = v.after;
        returns =
            >>=-some (expect_failure (kernel_calls e registers) fuel lit c1 t1 0) _ x1.returns
            ∙ (>>=-some (expect_failure (kernel_calls e registers) fuel lit c2 t2 0) _ x2.returns
                ∙ v.returns);
        keeps = tt;
      }

  err_vidmap-Returns :
      (m : Machine)
      → IsFresh fuel lit m
      → Returns Anything (pos 0) (err_vidmap (kernel_calls e registers) fuel lit m)
  unfolding err_vidmap
  err_vidmap-Returns m h =
      two _ _ "Null pointer fail\n" "Kernel pointer fail fail\n" "err_vidmap: FAIL\n"
        "err_vidmap: PASS\n" m (vidmap-Refuses e registers fuel lit 0 (omega arith))
        (vidmap-Refuses e registers fuel lit 0x400000 (omega arith)) (λ m h. h.pass_6) h

  -- The keyboard's table cannot write, and the screen's cannot read.
  err_stdin_out-Returns :
      (buf : ℕ) (m : Machine)
      → IsFresh fuel lit m
      → Returns Anything (pos 0) (err_stdin_out (kernel_calls e registers) fuel lit buf m)
  unfolding err_stdin_out
  err_stdin_out-Returns buf m h =
      two _ _ "write to stdin fail\n" "read from stdout fail\n" "err_stdin_out: FAIL\n"
        "err_stdin_out: PASS\n" m
        (write-Refuses e registers fuel lit (pos 0) buf (λ m h.
          write-stdin e.devices e.uninit buf (pos 31) (on_io sti m.kernel) h.stdin_flags h.stdin))
        (read-Refuses e registers fuel lit (pos 1) buf (λ m h events keys.
          read-stdout e.layout events keys e.local buf (pos 31) (on_io sti m.kernel) h.stdout_flags
            h.stdout))
        (λ m h. h.pass_7) h

  syscall_num-Refuses :
      (num : ℤ)
      → ((m : Machine)
          → main_syscall e num registers registers registers m ≡ run_call (minus_one, m.kernel) m)
      → Refuses e registers fuel lit (λ m. main_syscall e num registers registers registers m)
  syscall_num-Refuses num rejected m h = record {
    after = on_kernel (on_io (λ io. sti (cli io)) m.kernel) m;
    returns = rejected m;
    keeps = IsFresh-quiet e registers fuel lit (λ io. sti (cli io)) m.reads m h;
  }

  err_syscall_num-Returns :
      (m : Machine)
      → IsFresh fuel lit m
      → Returns Anything (pos 0) (err_syscall_num (kernel_calls e registers) fuel lit m)
  unfolding err_syscall_num
  err_syscall_num-Returns m h =
      let r = λ (m : Machine). main_syscall-rejects e registers registers registers m in
      three _ _ _ "syscall 0 fail\n" "big num syscall fail\n" "neg num syscall fail\n"
        "err_syscall_num: FAIL\n" "err_syscall_num: PASS\n" m
        (syscall_num-Refuses big_fd (λ m. (r m).1 _ (inr (omega arith))))
        (syscall_num-Refuses neg_fd (λ m. (r m).0 _))
        (syscall_num-Refuses (pos 0) (λ m. (r m).1 _ (inl refl))) (λ m h. h.pass_8) h

  signed_back : (i : ℕ) → i < 8 → signed32 (to_uint32 (pos i)) ≡ pos i
  signed_back i lt = ground arith

  free_fd :
      (i : ℕ) (m : Machine)
      → 2 ≤ i
      → i < 8
      → IsFresh fuel lit m
      → Unusable (on_io sti m.kernel) (signed32 (to_uint32 (pos i)))
  free_fd i m le lt h = rw (signed_back i lt) (inactive i (h.free i le lt))

  close_free :
      (i : ℕ) (m : Machine)
      → i < 8
      → IsFresh fuel lit m
      → close e.devices e.uninit (signed32 (to_uint32 (pos i))) (on_io sti m.kernel)
        ≡ (minus_one, on_io sti m.kernel)
  unfolding close
  close_free i m lt h = rw (signed_back i lt) (ground (arith, h.free i))

  err_unopened-Returns :
      (buf : ℕ) (m : Machine)
      → IsFresh fuel lit m
      → Returns Anything (pos 0) (err_unopened (kernel_calls e registers) fuel lit buf m)
  unfolding err_unopened
  err_unopened-Returns buf m h =
      let C = kernel_calls e registers in
      let closes =
        all_fail C fuel lit 8 0 (λ i. C.close (pos i)) "close unopened or invalid fd fail\n" 0 in
      let reads =
        all_fail C fuel lit 6 2 (λ i. C.read (pos i) buf (pos 31)) "read from unopened fd fail\n"
          0 in
      let writes =
        all_fail C fuel lit 6 2 (λ i. C.write (pos i) buf (pos 31)) "write to unopened fd fail\n"
          0 in
      let x1 =
        all_fail-Returns e registers fuel lit 8 0 (λ i. C.close (pos i))
          "close unopened or invalid fd fail\n" 0 m
          (λ i le lt. close-Refuses e registers fuel lit (pos i) (λ m h. close_free i m lt h)) h in
      let x2 =
        all_fail-Returns e registers fuel lit 6 2 (λ i. C.read (pos i) buf (pos 31))
          "read from unopened fd fail\n" 0 x1.after
          (λ i le lt.
            (Unusable-calls e registers fuel lit (pos i) buf (λ m h. free_fd i m le lt h)).0)
          x1.keeps in
      let x3 =
        all_fail-Returns e registers fuel lit 6 2 (λ i. C.write (pos i) buf (pos 31))
          "write to unopened fd fail\n" 0 x2.after
          (λ i le lt.
            (Unusable-calls e registers fuel lit (pos i) buf (λ m h. free_fd i m le lt h)).1)
          x2.keeps in
      let v =
        verdict-Returns e registers fuel lit "err_unopened: FAIL\n" "err_unopened: PASS\n" x3.after
          x3.keeps.pass_5 in
      record {
        after = v.after;
        returns =
            >>=-some closes _ x1.returns
            ∙ (>>=-some reads _ x2.returns ∙ (>>=-some writes _ x3.returns ∙ v.returns));
        keeps = tt;
      }

  -- In a process as `execute` sets it up, with the screen and the file system in any state, six of the
  -- eight tests of the system calls' error paths pass: with a negative descriptor, one past the
  -- table, ones that are not open, `vidmap` to no user address, writing to the keyboard and reading
  -- from the screen, and calls with numbers that name none. Each returns 0, the value of a pass,
  -- wherever its buffer lies, and with anything in the registers that it does not set.
  pub error_tests_pass :
      (buf : ℕ) (m : Machine)
      → IsFresh fuel lit m
      → Returns Anything (pos 0) (err_neg_fd (kernel_calls e registers) fuel lit buf m)
        × Returns Anything (pos 0) (err_big_fd (kernel_calls e registers) fuel lit buf m)
        × Returns Anything (pos 0) (err_unopened (kernel_calls e registers) fuel lit buf m)
        × Returns Anything (pos 0) (err_vidmap (kernel_calls e registers) fuel lit m)
        × Returns Anything (pos 0) (err_stdin_out (kernel_calls e registers) fuel lit buf m)
        × Returns Anything (pos 0) (err_syscall_num (kernel_calls e registers) fuel lit m)
  error_tests_pass buf m h = (
    err_neg_fd-Returns buf m h,
    err_big_fd-Returns buf m h,
    err_unopened-Returns buf m h,
    err_vidmap-Returns m h,
    err_stdin_out-Returns buf m h,
    err_syscall_num-Returns m h,
  )
