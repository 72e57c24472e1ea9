-- ===== src/Idt/Exceptions.antt =====
-- The handlers of idt.c: each prints its message, and an exception ends the process.
use chap_os.Common.{
  ℕ, ◌≤◌, ◌≡◌, ◌≢◌, refl, ap, arith, Option, some, List, [], ◌∷◌, ◌++◌, ◌>>=◌, Mem, store,
}
use chap_os.Pic.{Devices}
use chap_os.Block.{store32}
use chap_os.Screen.{Display, print_text}
use chap_os.Screen.Cursor.{InScreen}
use chap_os.Screen.Printf.{printf, with_mem}
use chap_os.Screen.Printf.Pieces.{literal, string, bytes_at, IsFormat, RendersAll}
use chap_os.Screen.Printf.Same.{IsBuffer, Same}
use chap_os.Screen.Printf.Progress.{Output}
use chap_os.Screen.Printf.Output.{printf-Output}
use chap_os.Keyboard.{on_display}
use chap_os.Process.{Kernel, on_console, get_pcb_ptr}
use chap_os.Process.Resuming.{Resumes, halt-Resumes}
use chap_os.Paging.{Layout}
use chap_os.Process.Launch.{Flow, resume_frame, halt}
use chap_os.Process.Ending.{halt-frees}

abbrev pub except_retval : ℕ
except_retval = 1

abbrev pub display_of : Kernel → Display
display_of k = k.console.display

abbrev pub set_display : Display → Kernel → Kernel
set_display d k = on_console (on_display (λ _. d)) k

-- The display once a word has been pushed at `esp`.
abbrev pub pushed : ℕ → ℕ → Kernel → Display
pushed esp value k = with_mem (store32 (display_of k).mem esp value) (display_of k)

module _ (devices : Devices) (uninit fuel conv : ℕ) where
  -- An `EXCEPT_FN`, with its format "%s\n" at `format` and its message at `msg`.
  unfoldable pub exception : ℕ → ℕ → ℕ → Kernel → Option (Flow × Kernel)
  exception format esp msg k = printf fuel conv format esp (pushed esp msg k) >>= λ r.
      some (halt devices uninit except_retval (set_display r.1 k))

  -- `exception_PF`, with its format "Page Fault at %d\n".
  unfoldable pub exception_pf : ℕ → ℕ → ℕ → Kernel → Option (Flow × Kernel)
  exception_pf format esp cr2 k = printf fuel conv format esp (pushed esp cr2 k) >>= λ r.
      some (halt devices uninit except_retval (set_display r.1 k))

-- `generic_handler` only prints.
unfoldable pub generic_handler : ℕ → ℕ → ℕ → ℕ → Kernel → Option Kernel
generic_handler fuel conv format esp k =
    printf fuel conv format esp (display_of k) >>= λ r. some (set_display r.1 k)

-- Characters of the wanted kind have been printed on the display `b`, up to the conversion buffer,
-- and shown when the process has been ended: its number is free, and its parent goes on with the value
-- 256 in the frame that the ended process's block has saved, active, with its image mapped.
pub record Reported (l : Layout) (conv : ℕ) (b : Display) (Q : List ℕ → Type 0) (k : Kernel)
    (result : Option (Flow × Kernel)) : Type 0 where
  pub chars : List ℕ
  pub renders : Q chars
  pub out : Display
  pub shown : Same conv 64 (print_text chars b) out
  pub after : Kernel
  pub returns : result ≡ some (resume_frame 256 (get_pcb_ptr k).kbp (get_pcb_ptr k).ksp, after)
  pub goes_on :
      Resumes l 1
        (set_display out k)
        (resume_frame 256 (get_pcb_ptr k).kbp (get_pcb_ptr k).ksp)
        after
  pub freed : after.proc_id_flags ≡ store k.proc_id_flags k.active_proc_num 0

message :
    (m : Mem) (at n : ℕ) (cs : List ℕ)
    → RendersAll m (string at n ∷ literal 10 ∷ []) cs
    → cs ≡ bytes_at m at n ++ 10 ∷ []
message m at n cs (here, rest, e, h, (newline, last, e', h', e'')) = rw (e, h, e', h', e'') refl

module _ (devices : Devices) (uninit fuel conv : ℕ) (apart : IsBuffer conv 64) where
  printed-Reported :
      {Q R : List ℕ → Type 0} {b : Display} {n : ℕ} (k : Kernel) {result : Option (ℕ × Display)}
      (l : Layout)
      → k.active_proc_num ≢ 0
      → (get_pcb_ptr k).parent_proc_num ≤ 6
      → ((cs : List ℕ) → Q cs → R cs)
      → Output conv b Q n result
      → Reported l conv b R k (result >>= λ r. some (halt devices uninit 1 (set_display r.1 k)))
  printed-Reported k l ne known f o =
      let k1 = set_display o.out k in
      let r = halt-Resumes devices uninit l 1 k1 ne known in
      let e : halt devices uninit 1 k1 ≡ (
        resume_frame 256 (get_pcb_ptr k).kbp (get_pcb_ptr k).ksp,
        (halt devices uninit 1 k1).1,
      ) =
        ap (λ x. (x, (halt devices uninit 1 k1).1)) r.flows in
      record {
        chars = o.chars;
        renders = f o.chars o.renders;
        out = o.out;
        shown = o.same;
        after = (halt devices uninit 1 k1).1;
        returns = rw (o.returns, ◌>>=◌) (ap some e);
        goes_on = record {
          flows = refl;
          active = r.active;
          own_stack = r.own_stack;
          slot = r.slot;
          image = r.image;
          mem = r.mem;
          column = r.column;
          row = r.row;
        };
        freed = (halt-frees devices uninit 1 0 k1 (omega arith)).0;
      }

  -- An exception whose format is "%s\n", and whose message is the text of `n` bytes at `msg`, in a
  -- process other than the first, with the cursor on the screen, the conversion buffer off it, and fuel
  -- for the conversions and the text: the message and a new line are printed, and the process is ended.
  -- Its number is free; its parent, one of the numbers up to 6, is the active process, goes on with
  -- the value 256 in the frame that the ended process's block has saved, on the kernel stack that this
  -- frame lies in, has its own kernel stack for the next trap and its own image at 128 MB; every other
  -- address is translated as before, and the screen shows what was printed.
  pub exception-Reported :
      (format esp msg n : ℕ) (l : Layout) (k : Kernel)
      → k.active_proc_num ≢ 0
      → (get_pcb_ptr k).parent_proc_num ≤ 6
      → InScreen (pushed esp msg k)
      → IsFormat fuel conv (pushed esp msg k).mem format esp (string msg n ∷ literal 10 ∷ [])
      → 43 ≤ fuel
      → Reported l conv
          (pushed esp msg k)
          (λ cs. cs ≡ bytes_at (pushed esp msg k).mem msg n ++ 10 ∷ [])
          k
          (exception devices uninit fuel conv format esp msg k)
  unfolding exception
  exception-Reported format esp msg n l k ne known v f enough =
      printed-Reported k l ne known (message (pushed esp msg k).mem msg n) (
        printf-Output (string msg n ∷ literal 10 ∷ []) fuel conv format esp (pushed esp msg k) apart
          v f enough)
