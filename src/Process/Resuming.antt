-- ===== src/Process/Resuming.antt =====
-- `halt` of system_call.c: what it keeps of the block it ends, of the screen and of the mapping, and
-- where it goes on.
use chap_os.Common.{
  ℕ, zero, suc, ◌+◌, ◌-◌, ◌*◌, ◌/◌, ◌%◌, ◌^◌, ◌≤◌, ◌<◌, ◌≡◌, ◌≢◌, refl, ap, ◌∙◌, inl, inr, arith,
  Bool-cases, true, false, some, ◌&&◌, leb, ◌==◌, if◌then◌else◌, pos, store,
}
use chap_os.Pic.{Devices, cli, disable_irq}
use chap_os.Rtc.{Rtc, rtc_close}
use chap_os.Keyboard.{keyboard_irq, close_keyboard}
use chap_os.Paging.{Layout, map_user_img_page}
use chap_os.Paging.Translate.{translate}
use chap_os.Paging.Maps.{translate-map_user_img_page}
use chap_os.FileSys.{
  FileOps, FileDesc, Pcb, set_desc, no_file_ops, rtc_ops, file_ops, dir_ops, stdin_ops, stdout_ops,
}
use chap_os.Process.{Kernel, desc_of, put_desc, on_io, set_rtc, rtc_of, get_pcb_ptr}
use chap_os.Process.Files.{close_ops}
use chap_os.Process.Launch.{Flow, close_all, halt, resume_frame, exit_value, slot_of}
use chap_os.Process.Ending.{close_one, close_one-kept, close_one-closed, end_one}

-- Two kernels with the same kernel stack in use, the same frame and parent in the block on it, the
-- same mapping, and the same memory and cursor of the screen.
pub record Steady (k' k : Kernel) : Type 0 where
  pub slot : k'.stack_slot ≡ k.stack_slot
  pub kbp : (get_pcb_ptr k').kbp ≡ (get_pcb_ptr k).kbp
  pub ksp : (get_pcb_ptr k').ksp ≡ (get_pcb_ptr k).ksp
  pub parent : (get_pcb_ptr k').parent_proc_num ≡ (get_pcb_ptr k).parent_proc_num
  pub paging : k'.console.paging ≡ k.console.paging
  pub mem : k'.console.display.mem ≡ k.console.display.mem
  pub column : k'.console.display.screen_x ≡ k.console.display.screen_x
  pub row : k'.console.display.screen_y ≡ k.console.display.screen_y

Steady-refl : (k : Kernel) → Steady k k
Steady-refl k = record {
  slot = refl;
  kbp = refl;
  ksp = refl;
  parent = refl;
  paging = refl;
  mem = refl;
  column = refl;
  row = refl;
}

Steady-trans : {k'' k' k : Kernel} → Steady k'' k' → Steady k' k → Steady k'' k
Steady-trans a b = record {
  slot = a.slot ∙ b.slot;
  kbp = a.kbp ∙ b.kbp;
  ksp = a.ksp ∙ b.ksp;
  parent = a.parent ∙ b.parent;
  paging = a.paging ∙ b.paging;
  mem = a.mem ∙ b.mem;
  column = a.column ∙ b.column;
  row = a.row ∙ b.row;
}

put_desc-Steady : (fd : ℕ) (v : FileDesc) (k : Kernel) → Steady (put_desc fd v k) k
put_desc-Steady fd v k =
    let here : (k.stack_slot == k.stack_slot) ≡ true = ground arith in
    let block : get_pcb_ptr (put_desc fd v k) ≡ set_desc fd v (get_pcb_ptr k) = rw here refl in
    record {
      slot = refl;
      kbp = ap (λ (p : Pcb). p.kbp) block;
      ksp = ap (λ (p : Pcb). p.ksp) block;
      parent = ap (λ (p : Pcb). p.parent_proc_num) block;
      paging = refl;
      mem = refl;
      column = refl;
      row = refl;
    }

-- The drivers change the ports and the clock's flag alone.
set_rtc-Steady : (r : Rtc) (k : Kernel) → Steady (set_rtc r k) k
set_rtc-Steady r k = record {
  slot = refl;
  kbp = refl;
  ksp = refl;
  parent = refl;
  paging = refl;
  mem = refl;
  column = refl;
  row = refl;
}

module _ (devices : Devices) (uninit : ℕ) where
  close_ops-Steady :
      (o : FileOps) (fd : ℕ) (k : Kernel) → Steady (close_ops devices uninit o fd k).1 k
  unfolding close_ops close_keyboard
  close_ops-Steady rtc_ops fd k = set_rtc-Steady (rtc_close devices uninit (rtc_of k)).1 k
  close_ops-Steady file_ops fd k = Steady-refl k
  close_ops-Steady dir_ops fd k = Steady-refl k
  close_ops-Steady stdin_ops fd k =
      set_rtc-Steady
        (record {
          io = disable_irq keyboard_irq k.console.display.io;
          interrupt_occurred = k.interrupt_occurred;
        })
        k
  close_ops-Steady stdout_ops fd k =
      set_rtc-Steady
        (record {
          io = disable_irq keyboard_irq k.console.display.io;
          interrupt_occurred = k.interrupt_occurred;
        })
        k
  close_ops-Steady no_file_ops fd k = Steady-refl k

  close_one-Steady : (i : ℕ) (k : Kernel) → i < 8 → Steady (close_one devices uninit i k) k
  close_one-Steady i k lt = elim (Bool-cases (leb 2 i && (desc_of i k).flags == 1)) [
    | inl e ↦
        let off : FileDesc = record (desc_of i k) { flags = 0 } in
        rw (close_one-closed devices uninit i k lt e) (
          Steady-trans (close_ops-Steady (desc_of i k).fops_jmp_tb_ptr i (put_desc i off k))
            (put_desc-Steady i off k))
    | inr e ↦ rw (close_one-kept devices uninit i k e) (Steady-refl k)
  ]

  close_all-Steady :
      (left i : ℕ) (k : Kernel) → i + left ≤ 8 → Steady (close_all devices uninit left i k) k
  unfolding close_all
  close_all-Steady zero i k le = Steady-refl k
  close_all-Steady (suc left) i k le =
      let k1 : Kernel = close_one devices uninit i k in
      Steady-trans (close_all-Steady left (i + 1) (end_one devices uninit i k) (omega arith)) (
        Steady-trans
          (put_desc-Steady i (record (desc_of i k1) { fops_jmp_tb_ptr = no_file_ops }) k1)
          (close_one-Steady i k (omega arith)))

-- `halt` of a process other than the first goes on in the frame that the ended block has saved, with
-- the status. The parent that this block names is the active process, its kernel stack is the one
-- for the next trap, its image is at 128 MB, and the screen is as it was.
pub record Resumes (l : Layout) (status : ℕ) (k : Kernel) (flow : Flow) (k' : Kernel) : Type 0 where
  pub flows : flow ≡ resume_frame (exit_value status) (get_pcb_ptr k).kbp (get_pcb_ptr k).ksp
  pub active : k'.active_proc_num ≡ (get_pcb_ptr k).parent_proc_num
  pub own_stack : k'.tss_esp0 ≡ 0x800000 - 0x2000 * (get_pcb_ptr k).parent_proc_num - 4
  pub slot : k'.stack_slot ≡ slot_of (get_pcb_ptr k).ksp
  pub image :
      (addr : ℕ)
      → translate l k'.console.paging addr ≡ (
          if addr / 2 ^ 22 == 32
          then some (record {
            physical = ((get_pcb_ptr k).parent_proc_num + 2) * 2 ^ 22 + addr % 2 ^ 22;
            user = true;
          })
          else translate l k.console.paging addr)
  pub mem : k'.console.display.mem ≡ k.console.display.mem
  pub column : k'.console.display.screen_x ≡ k.console.display.screen_x
  pub row : k'.console.display.screen_y ≡ k.console.display.screen_y

pub halt-Resumes :
    (devices : Devices) (uninit : ℕ) (l : Layout) (status : ℕ) (k : Kernel)
    → k.active_proc_num ≢ 0
    → (get_pcb_ptr k).parent_proc_num ≤ 6
    → Resumes l status k (halt devices uninit status k).0 (halt devices uninit status k).1
unfolding halt
halt-Resumes devices uninit l status k ne lt =
    let later : (k.active_proc_num == 0) ≡ false = ground arith in
    let k1 : Kernel = record (on_io cli k) {
      proc_id_flags = store k.proc_id_flags k.active_proc_num 0;
    } in
    let s : Steady (close_all devices uninit 8 0 k1) k1 =
      close_all-Steady devices uninit 8 0 k1 (omega arith) in
    let parent : ℕ = (get_pcb_ptr k).parent_proc_num in
    let mapped : (map_user_img_page
          (pos (get_pcb_ptr (close_all devices uninit 8 0 k1)).parent_proc_num)
          (close_all devices uninit 8 0 k1).console.paging).1
        ≡ (map_user_img_page (pos parent) k.console.paging).1 =
      rw (s.parent, s.paging) refl in
    rw later (record {
      flows = rw (s.kbp, s.ksp) refl;
      active = s.parent;
      own_stack = ap (λ n. 0x800000 - 0x2000 * n - 4) s.parent;
      slot = ap slot_of s.ksp;
      image = λ addr.
          ap (λ p. translate l p addr) mapped
          ∙ (translate-map_user_img_page l k.console.paging parent addr lt).2;
      mem = s.mem;
      column = s.column;
      row = s.row;
    })
