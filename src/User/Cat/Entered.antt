-- ===== src/User/Cat/Entered.antt =====
-- A program's `read` and `write` as the kernel's calls, with interrupts on.
use chap_os.Common.{ℕ, ◌+◌, ◌≤◌, ◌<◌, ◌≡◌, refl, arith, true, Bool, some, List, ℤ, pos}
use chap_os.Pic.{sti, cli}
use chap_os.FileSys.{to_uint32}
use chap_os.Process.{Kernel, on_io}
use chap_os.Process.Files.{read, write}
use chap_os.Process.Entry.{Env, Machine, on_kernel, signed32, jump, main_syscall}
use chap_os.User.{Calls}
use chap_os.User.OnKernel.{kernel_calls}
use chap_os.User.Cat.Round.{sti_lem, on_io_lem}

-- Whether interrupts are on.
abbrev pub IsRunning : Kernel → Type 0
IsRunning k = k.console.display.io.interrupts ≡ true

module _ (e : Env) (registers : ℕ) where
  abbrev C : Calls
  C = kernel_calls e registers

  pub read_call :
      (fd buf : ℕ) (v : ℤ) (k' : Kernel) (t : Machine)
      → fd < 8
      → IsRunning t.kernel
      → IsRunning k'
      → ((events : List Bool) (keys : List ℕ)
          → read e.layout events keys e.local (pos fd) buf (pos 1024) t.kernel ≡ some (v, k'))
      → C.read (pos fd) buf (pos 1024) t ≡ some (v, on_kernel k' (record t { reads = t.reads + 1 }))
  unfolding main_syscall jump
  read_call fd buf v k' t small on on' reads =
      let same : signed32 (to_uint32 (pos fd)) ≡ pos fd = ground arith in
      let entered : on_io sti t.kernel ≡ t.kernel =
        on_io_lem sti t.kernel (sti_lem t.kernel.console.display.io on) in
      let left : on_io (λ io. sti (cli io)) k' ≡ k' =
        on_io_lem (λ io. sti (cli io)) k' (sti_lem k'.console.display.io on') in
      rw (same, entered, reads (t.clock t.reads) (t.keys t.reads), left) refl

  pub write_call :
      (buf n : ℕ) (v : ℤ) (k' : Kernel) (t : Machine)
      → n ≤ 1024
      → IsRunning t.kernel
      → IsRunning k'
      → write e.devices e.uninit (pos 1) buf (pos n) t.kernel ≡ (v, k')
      → C.write (pos 1) buf (pos n) t ≡ some (v, on_kernel k' t)
  unfolding main_syscall jump
  write_call buf n v k' t small on on' writes =
      let same : signed32 (to_uint32 (pos n)) ≡ pos n = ground arith in
      let entered : on_io sti t.kernel ≡ t.kernel =
        on_io_lem sti t.kernel (sti_lem t.kernel.console.display.io on) in
      let left : on_io (λ io. sti (cli io)) k' ≡ k' =
        on_io_lem (λ io. sti (cli io)) k' (sti_lem k'.console.display.io on') in
      rw (same, entered, writes, left) refl
