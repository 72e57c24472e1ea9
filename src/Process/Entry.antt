-- ===== src/Process/Entry.antt =====
-- The system calls as a program reaches them: `main_syscall` and its jump table, from
-- chapOS/student-distrib/sys_call_asm_link.S, over the kernel and what comes in from outside.
use chap_os.Common.{
  ℕ, ◌+◌, ◌-◌, ◌^◌, ◌≡◌, ◌≤◌, ◌⊎◌, ◌||◌, refl, arith, ltb, ◌==◌, if◌then◌else◌, Bool, Option, none,
  some, List, ℤ, pos, negsuc, minus_one,
}
use chap_os.Pic.{Devices, cli, sti}
use chap_os.Paging.{Layout}
use chap_os.Process.{Kernel, on_io, getargs, vidmap}
use chap_os.Process.Files.{open_call, read, write, close}
use chap_os.Process.Launch.{Frame, returned, enter_user, resume_frame, execute_shell, execute}

-- What the calls take beside the kernel's state: the devices, the page tables' places, the fuel, the
-- addresses of local variables, where a user's address lies in memory, and what the program that
-- `execute` starts does until it halts: the value that the caller gets, and the kernel.
pub record Env : Type 0 where
  pub devices : Devices
  pub uninit : ℕ
  pub layout : Layout
  pub fuel : ℕ
  pub frame : Frame
  pub local : ℕ
  pub entry : ℕ
  pub place : ℕ → ℕ
  pub child : ℕ → Kernel → Option (ℤ × Kernel)

-- The kernel, with the clock's interrupts and the scan codes that come while the n-th `read` waits.
pub record Machine : Type 0 where
  pub kernel : Kernel
  pub reads : ℕ
  pub clock : ℕ → List Bool
  pub keys : ℕ → List ℕ

abbrev pub on_kernel : Kernel → Machine → Machine
on_kernel k m = record m { kernel = k }

-- A register as an `int32_t`.
abbrev pub signed32 : ℕ → ℤ
signed32 w = if ltb w (2 ^ 31) then pos w else negsuc (2 ^ 32 - 1 - w)

-- A call that always returns, and one that may not.
abbrev pub run_call : ℤ × Kernel → Machine → Option (ℤ × Machine)
run_call r m = some (r.0, on_kernel (on_io (λ io. sti (cli io)) r.1) m)

abbrev pub run_waiting : Option (ℤ × Kernel) → Machine → Option (ℤ × Machine)
run_waiting none m = none
run_waiting (some r) m = run_call r m

module _ (e : Env) where
  -- `execute` as its caller sees it.
  unfoldable pub execute_child : ℕ → Kernel → Option (ℤ × Kernel)
  execute_child command k = elim (execute e.layout e.fuel e.frame command k) [
    | none ↦ none
    | some (returned v, k') ↦ some (v, k')
    | some (enter_user start, k') ↦ e.child start k'
    | some (resume_frame v kbp ksp, k') ↦ some (pos v, k')
    | some (execute_shell, k') ↦ none
  ]

  -- The jump table, from index 1 on, with interrupts on. `halt` does not return. The table has eight
  -- functions: from index 9 on the call goes through the word that lies behind it.
  unfoldable pub jump : ℕ → (ebx ecx edx : ℕ) → Machine → Option (ℤ × Machine)
  jump eax ebx ecx edx m =
      let k = on_io sti m.kernel in
      let next = record m { reads = m.reads + 1 } in
      if eax == 2
      then run_waiting (execute_child ebx k) m
      else if eax == 3
      then run_waiting
          (read e.layout (m.clock m.reads) (m.keys m.reads) e.local (signed32 ebx) ecx
            (signed32 edx) k)
          next
      else if eax == 4
      then run_call (write e.devices e.uninit (signed32 ebx) ecx (signed32 edx) k) m
      else if eax == 5
      then run_call (open_call e.devices e.uninit e.entry ebx k) m
      else if eax == 6
      then run_call (close e.devices e.uninit (signed32 ebx) k) m
      else if eax == 7
      then run_waiting (getargs e.fuel ebx (signed32 ecx) k) m
      else if eax == 8
      then run_call (vidmap e.layout ebx (e.place ebx) k) m
      else none

  -- `main_syscall`: `eax` is compared as a signed number.
  unfoldable pub main_syscall : ℤ → (ebx ecx edx : ℕ) → Machine → Option (ℤ × Machine)
  main_syscall (negsuc n) ebx ecx edx m = run_call (minus_one, m.kernel) m
  main_syscall (pos n) ebx ecx edx m =
      if ltb 10 n || ltb n 1 then run_call (minus_one, m.kernel) m else jump n ebx ecx edx m

-- A call with a number below 1 or above 10 returns -1, and changes nothing but the interrupt flag;
-- one with the number 9 or 10 does neither: it goes through memory behind the jump table.
pub main_syscall-rejects :
    (e : Env) (ebx ecx edx : ℕ) (m : Machine)
    → ((n : ℕ) → main_syscall e (negsuc n) ebx ecx edx m ≡ run_call (minus_one, m.kernel) m)
      × ((n : ℕ)
          → (n ≡ 0) ⊎ (11 ≤ n)
          → main_syscall e (pos n) ebx ecx edx m ≡ run_call (minus_one, m.kernel) m)
      × ((n : ℕ) → (n ≡ 9) ⊎ (n ≡ 10) → main_syscall e (pos n) ebx ecx edx m ≡ none)
unfolding main_syscall jump
main_syscall-rejects e ebx ecx edx m = (λ n. refl, λ n h. ground arith, λ n h. ground arith)
