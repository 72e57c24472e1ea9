-- ===== src/User/OnKernel.antt =====
-- The calls of ece391syscall.S on this kernel: each wrapper loads the call's number and arguments
-- into the registers and raises the system call's interrupt.
use chap_os.Common.{ℕ, pos}
use chap_os.FileSys.{to_uint32}
use chap_os.Process.{mem_of, set_mem}
use chap_os.Process.Entry.{Env, Machine, on_kernel, main_syscall}
use chap_os.User.{Calls}

-- What the registers hold that a program does not set.
abbrev pub kernel_calls : Env → (registers : ℕ) → Calls
kernel_calls e registers = record {
  State = Machine;
  mem = λ m. mem_of m.kernel;
  set_mem = λ v m. on_kernel (set_mem v m.kernel) m;
  execute = λ command. main_syscall e (pos 2) command registers registers;
  read = λ fd buf nbytes. main_syscall e (pos 3) (to_uint32 fd) buf (to_uint32 nbytes);
  write = λ fd buf nbytes. main_syscall e (pos 4) (to_uint32 fd) buf (to_uint32 nbytes);
  open_call = λ filename. main_syscall e (pos 5) filename registers registers;
  close = λ fd. main_syscall e (pos 6) (to_uint32 fd) registers registers;
  getargs = λ buf nbytes. main_syscall e (pos 7) buf (to_uint32 nbytes) registers;
  vidmap = λ screen_start. main_syscall e (pos 8) screen_start registers registers;
  int_0x80 = λ num. main_syscall e num registers registers registers;
}
