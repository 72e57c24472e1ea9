-- ===== src/Lib.antt =====
-- Verification of the kernel in chapOS/student-distrib, a small 32-bit x86 kernel in C: a read-only
-- file system, processes with file descriptors, three terminals on one keyboard and text screen, a
-- clock driver, and the paging and interrupt code below them; and of the programs in chapOS/syscalls
-- that run on it.
--
-- Parts, and the files that model them (paths of sources are in chapOS/student-distrib, but for User):
--   Common    numbers as Booleans see them, lists, integers, byte-addressed memory, bits.
--   Block     memset, memcpy, memmove, clear_buf of lib.c, with their inline assembly.
--   Text      strlen, strcpy, strncpy, strncmp, strrev, itoa of lib.c.
--   Pic       i8259.c, and the port and interrupt macros of lib.h.
--   Rtc       rtc.c.
--   Paging    paging.c; Paging.Translate is the processor's address translation, the specification.
--   Screen    the text screen of lib.c; Screen.Printf is printf.
--   Keyboard  keyboard.c and terminal.h: scan codes, modifier keys, the line editor, the terminals.
--   FileSys   file_sys_module.c and the types of file_sys_module.h.
--   Process   system_call.c: descriptors and their tables, processes, the command parser, execute,
--             halt and the smaller calls; Process.Entry is the calls' entry in sys_call_asm_link.S.
--   Idt       idt.c: the interrupt descriptor table, and the exceptions.
--   Scheduler scheduler.c: the timer.
--   Segments  the segment descriptors of x86_desc.h that entry fills in.
--   Boot      kernel.c: entry, from the boot loader's information to the first shell.
--   User      chapOS/syscalls: the programs' library, cat, ls, hello, testprint, counter, shell, grep
--             and syserr, over a record of system calls; User.OnKernel is the kernel's calls as one.
--   Tests     concrete states, and the theorems applied to them.
--
-- Each part's state is a record, and an operation takes it and returns it with the result: Io for
-- the interrupt controller and the log of port writes, Rtc, Paging, Display (cursor, memory, Io),
-- Console (the keyboard's variables, terminals, Paging and Display), and Kernel, which joins Console
-- with the file system and the process table. Calls between parts are calls between the models: a
-- system call goes through a descriptor's table of operations to the file system, the clock or the
-- keyboard, the keyboard prints through the screen, the screen tells the display controller the
-- cursor through ports. An operation keeps its C name in lower case with underscores; `open` is
-- `open_call`.
--
-- Memory is a function from addresses to bytes, a pointer is an address, and a word is read and
-- written as its four bytes. Wrap-around is written out where a C value can wrap. Local arrays lie
-- at addresses that are arguments. What a device answers on a port, what an uninitialised variable
-- holds, and the scan codes and clock interrupts that come while a call waits are arguments too. A
-- program's string literals lie where a function of the text says.
--
-- Loops with a bound in the source are recursion on the number of rounds left. Scans for a zero byte
-- take fuel and are `none` where it runs out; their theorems give the fuel that is enough: one more
-- than a text's length for strlen, strcpy, strrev and puts, and five more than a command's length
-- for the parser. itoa needs 32 rounds, one for each bit. Waiting for the clock or a key takes a
-- list of events, and is `none` while it still waits at the list's end.
--
-- printf takes fuel for the characters of the format and of each text it prints. The loops of a
-- program take a number of rounds, and so does the loop of entry over the memory map.
--
-- Where control leaves the kernel, a value says so: Control for a key that starts a shell or halts a
-- process, Flow for execute and halt. For a program, `execute` goes on with what the started program
-- does until it halts, which is an argument of the calls' environment. The shell that a function key
-- starts is taken not to return; where the source's execute fails instead, and the handler ends its
-- interrupt, is not modelled. Not modelled: boot code
-- before entry, and the programs sigtest, pingpong, emulate and fish, which need calls that the
-- kernel lacks or only draw. Physical and virtual addresses are told apart where pages are copied
-- and where a program's image is loaded; elsewhere an address names the byte that the mapping in
-- force gives it.
pub mod Common
pub mod Block
pub mod Text
pub mod Pic
pub mod Rtc
pub mod Paging
pub mod Screen
pub mod Keyboard
pub mod FileSys
pub mod Process
pub mod Idt
pub mod Scheduler
pub mod Segments
pub mod Boot
pub mod User
pub mod Tests
