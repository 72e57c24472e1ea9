-- ===== src/User/Cat/Round.antt =====
-- One turn of the loop of `cat`: a read from the file, and a write to the screen.
use chap_os.Common.{
  ℕ, ◌+◌, ◌%◌, ◌^◌, ◌≤◌, ◌<◌, ◌≡◌, ◌⊎◌, refl, sym, ap, ◌∙◌, arith, inr, ◌==◌, ◌||◌, leb, true,
  false, Bool, some, List, [], ◌∷◌, ◌++◌, Mem, ℤ, pos, placed-other, placed-zero,
}
use native.Mathlib.Nat.{add-zero, zero-add}
use chap_os.Pic.{Io, sti}
use chap_os.Screen.{Display, video, putc, print_char, new_line, move_curser, print_text}
use chap_os.Screen.Cursor.{InScreen}
use chap_os.Screen.Printf.Pieces.{bytes_at}
use chap_os.Screen.Printf.Same.{
  with_mem-Same, print_text-Same, print_text-InScreen, print_text-outside, print_text-append,
}
use chap_os.FileSys.{
  FileSys, file_ops, stdout_ops, num_inodes, get_file_size, inode_address, set_file_pos, file_read,
  read_data,
}
use chap_os.FileSys.Data.{file_byte, delivered, readable}
use chap_os.FileSys.Read.{file_read-delivered, Clear-part, read_data-refused}
use chap_os.Keyboard.{keyboard_write, write_keys}
use chap_os.Process.{Kernel, mem_of, desc_of, on_io, on_console, set_mem, set_current, get_pcb_ptr}
use chap_os.Process.Files.{read, read_ops, write, write_ops}
use chap_os.Process.Entry.{Env}
use chap_os.User.Cat.{visible, IsFile, IsReading}
use chap_os.User.Cat.Agreeing.{num_inodes-Agrees, size-Agrees, Clear-Agrees, write_keys-visible}

pub sti_lem : (io : Io) → io.interrupts ≡ true → sti io ≡ io
sti_lem io h = ap (λ b. record io { interrupts = b }) (sym h)

pub on_io_lem :
    (f : Io → Io) (k : Kernel) → f k.console.display.io ≡ k.console.display.io → on_io f k ≡ k
on_io_lem f k h = ap (λ io. on_io (λ _. io) k) h

putc-interrupts : (c : ℕ) (d : Display) → (putc c d).io.interrupts ≡ d.io.interrupts
unfolding putc print_char new_line move_curser
putc-interrupts c d = ground arith

print_text-interrupts :
    (cs : List ℕ) (d : Display) → (print_text cs d).io.interrupts ≡ d.io.interrupts
unfolding print_text
print_text-interrupts [] d = refl
print_text-interrupts (c ∷ cs) d = print_text-interrupts cs (putc c d) ∙ putc-interrupts c d

-- What a read of `n` bytes at the position `p` leaves.
abbrev pub after_read : FileSys → (inode buf fd p n : ℕ) → Kernel → Kernel
after_read fs inode buf fd p n k =
    set_current (set_file_pos fd (p + n) (get_pcb_ptr k))
      (set_mem (delivered fs (mem_of k) (inode_address fs inode) p buf n) k)

-- `read` on a descriptor with the table of the files.
read-file_read :
    (e : Env) (events : List Bool) (keys : List ℕ) (fd buf : ℕ) (nbytes : ℤ) (k : Kernel)
    → (buf == 0 || leb 8 fd) ≡ false
    → (desc_of fd k).flags ≡ 1
    → (desc_of fd k).fops_jmp_tb_ptr ≡ file_ops
    → read e.layout events keys e.local (pos fd) buf nbytes k ≡ (
        let r = file_read k.fs fd buf nbytes (get_pcb_ptr k) (mem_of k) in
        some (r.0, set_current r.1 (set_mem r.2 k)))
unfolding read read_ops
read-file_read e events keys fd buf nbytes k valid active table = rw (valid, active, table) refl

-- The kernel once characters have been printed.
abbrev pub after_write : List ℕ → Kernel → Kernel
after_write vs k = on_console (λ c. record c { display = print_text vs c.display }) k

module _ (e : Env) (fs : FileSys) (m : Mem) (inode buf fd : ℕ) (d : Display)
    (f : IsFile fs m inode buf) (start : InScreen d) (small : fd < 8) where
  abbrev size : ℕ
  size = get_file_size fs inode m

  pub read-delivered :
      (events : List Bool) (keys : List ℕ) (p : ℕ) (cs : List ℕ) (k : Kernel)
      → IsReading fs m inode buf fd d p cs k
      → p < size
      → read e.layout events keys e.local (pos fd) buf (pos 1024) k
        ≡ some (pos (readable size p 1024), after_read fs inode buf fd p (readable size p 1024) k)
  read-delivered events keys p cs k r inside =
      let valid : (buf == 0 || leb 8 fd) ≡ false = ground (arith, f.somewhere) in
      let ip : ℕ = inode_address fs inode in
      let n : ℕ = readable size p 1024 in
      let run : file_read k.fs fd buf (pos 1024) (get_pcb_ptr k) (mem_of k)
          ≡ (pos n, set_file_pos fd (p + n) (get_pcb_ptr k), delivered fs (mem_of k) ip p buf n) =
        rw r.mounted (
          file_read-delivered fs fd buf 1024 inode p size (get_pcb_ptr k) (mem_of k) (omega arith)
            r.reads r.position (size-Agrees fs m (mem_of k) inode buf f r.agrees)
            (rw (num_inodes-Agrees fs m (mem_of k) inode buf f r.agrees) f.known) inside f.small
            (Clear-part fs (mem_of k) ip buf 1024 n
              (Clear-Agrees fs m (mem_of k) inode buf f r.agrees) (ground arith))) in
      read-file_read e events keys fd buf (pos 1024) k valid r.active r.table
      ∙ ap (λ r. some (r.0, set_current r.1 (set_mem r.2 k))) run

  pub read-IsReading :
      (p n : ℕ) (cs : List ℕ) (k : Kernel)
      → IsReading fs m inode buf fd d p cs k
      → n ≤ 1024
      → IsReading fs m inode buf fd d (p + n) cs (after_read fs inode buf fd p n k)
  read-IsReading p n cs k r le =
      let m1 = delivered fs (mem_of k) (inode_address fs inode) p buf n in
      let changed : (a : ℕ) → (a < buf) ⊎ (buf + 1024 ≤ a) → m1 a ≡ mem_of k a = λ a out.
        placed-other (mem_of k) buf n a
          (λ j. file_byte fs (mem_of k) (inode_address fs inode) (p + j)) (omega arith) in
      record {
        mounted = r.mounted;
        active = ground (arith, r.active);
        table = ground (arith, r.table);
        reads = ground (arith, r.reads);
        position = ground arith;
        out_active = ground (arith, r.out_active);
        out_table = ground (arith, r.out_table);
        running = r.running;
        agrees = λ a out far. changed a out ∙ r.agrees a out far;
        shown = with_mem-Same m1 r.shown changed;
      }

  -- A read at the end returns 0.
  pub read-end :
      (events : List Bool) (keys : List ℕ) (p : ℕ) (cs : List ℕ) (k : Kernel)
      → IsReading fs m inode buf fd d p cs k
      → size ≤ p
      → p < 2 ^ 32
      → read e.layout events keys e.local (pos fd) buf (pos 1024) k
        ≡ some (pos 0, after_read fs inode buf fd p 0 k)
  unfolding file_read
  read-end events keys p cs k r past short =
      let valid : (buf == 0 || leb 8 fd) ≡ false = ground (arith, f.somewhere) in
      let ip : ℕ = inode_address fs inode in
      let m1 : Mem = mem_of k in
      let known : leb (num_inodes fs m1) inode ≡ false =
        ground (arith, num_inodes-Agrees fs m m1 inode buf f r.agrees, f.known) in
      let done : read_data fs inode p buf 1024 m1 ≡ (pos 0, m1) = rw known at (
        read_data-refused fs inode p buf 1024 m1
          (inr (rw (size-Agrees fs m m1 inode buf f r.agrees) past))) in
      let stays : (p + 0) % 2 ^ 32 ≡ p + 0 = ground arith in
      let run : file_read k.fs fd buf (pos 1024) (get_pcb_ptr k) m1
          ≡ (pos 0, set_file_pos fd (p + 0) (get_pcb_ptr k), delivered fs m1 ip p buf 0) =
        rw
          (
            r.mounted,
            r.reads,
            r.position,
            done,
            stays,
            placed-zero m1 buf (λ j. file_byte fs m1 ip (p + j)),
          )
          refl in
      read-file_read e events keys fd buf (pos 1024) k valid r.active r.table
      ∙ ap (λ r. some (r.0, set_current r.1 (set_mem r.2 k))) run

  pub write-visible :
      (n : ℕ) (k : Kernel)
      → (desc_of 1 k).flags ≡ 1
      → (desc_of 1 k).fops_jmp_tb_ptr ≡ stdout_ops
      → InScreen (k.console.display)
      → n ≤ 1024
      → write e.devices e.uninit (pos 1) buf (pos n) k ≡ (
        pos n,
        on_console
            (λ c. record c { display = print_text (visible (bytes_at (mem_of k) buf n)) c.display })
            k,
      )
  unfolding write write_ops keyboard_write
  write-visible n k active table v le =
      let valid : (buf == 0 || leb 8 1) ≡ false = ground (arith, f.somewhere) in
      let apart : (buf + 1024 ≤ video) ⊎ (video + 4000 ≤ buf) = f.apart in
      let printed : write_keys n buf 0 k.console.display
          ≡ (n, print_text (visible (bytes_at (mem_of k) buf n)) k.console.display) =
        rw (add-zero buf, zero-add n) at
          (write_keys-visible n buf 0 k.console.display (mem_of k) v (omega arith)
            (λ j lt. refl)) in
      rw (valid, active, table, printed) refl

  pub display-InScreen :
      (p : ℕ) (cs : List ℕ) (k : Kernel)
      → IsReading fs m inode buf fd d p cs k
      → InScreen (k.console.display)
  display-InScreen p cs k r =
      let v : InScreen (print_text cs d) = print_text-InScreen cs d start in
      record { column = rw r.shown.screen_x v.column; row = rw r.shown.screen_y v.row }

  pub write-IsReading :
      (p : ℕ) (cs vs : List ℕ) (k : Kernel)
      → IsReading fs m inode buf fd d p cs k
      → IsReading fs m inode buf fd d p (cs ++ vs) (after_write vs k)
  write-IsReading p cs vs k r = record {
    mounted = r.mounted;
    active = r.active;
    table = r.table;
    reads = r.reads;
    position = r.position;
    out_active = r.out_active;
    out_table = r.out_table;
    running = print_text-interrupts vs k.console.display ∙ r.running;
    agrees = λ a out far.
        print_text-outside vs k.console.display a (display-InScreen p cs k r) far
        ∙ r.agrees a out far;
    shown = rw (print_text-append cs vs d) (print_text-Same f.apart vs r.shown);
  }
