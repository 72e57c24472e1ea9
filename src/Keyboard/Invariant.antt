-- ===== src/Keyboard/Invariant.antt =====
-- The keyboard handler on any scan code: it ends, and keeps the console's invariant.
use chap_os.Common.{
  ◌>>=◌, ℕ, ◌<◌, ◌≡◌, ◌≢◌, refl, ap, arith, inl, inr, Bool-cases, Bool, true, false, Option, some,
  leb, ◌==◌, if◌then◌else◌, pos, ℤ,
}
use chap_os.Pic.{cli, sti, enable_irq, disable_irq, send_eoi}
use chap_os.Paging.{Layout}
use chap_os.Keyboard.{Console, Control, resume, run_shell, halt_process, on_io, keyboard_irq}
use chap_os.Keyboard.Terminal.{
  set_terminal, set_cur_term_id, terminal_los, launch_other, terminal_launch, terminal_change,
}
use chap_os.Keyboard.Handler.{function_key, dispatch, handle_key, end_interrupt}
use chap_os.Keyboard.Switching.{
  IsMapped, saved, restored, switched, terminal_save-saved, terminal_restore-restored,
  terminal_change-switched,
}
use chap_os.Keyboard.Shown.{
  saved-IsConsole, restored-IsConsole, switched-IsConsole, set_in_use-IsConsole,
}
use chap_os.Keyboard.Keys.{
  IsConsole, on_io-IsConsole, press_caps-IsConsole, press_shift-IsConsole, unpress_shift-IsConsole,
  press_enter-IsConsole, press_bskp-IsConsole, press_other_key-IsConsole, set_ctrl_flag-IsConsole,
  set_alt_flag-IsConsole,
}

module _ (l : Layout) where
  -- A handler's outcome: it ends, with a console that keeps the invariant.
  pub record Handled (outcome : Option (Control × Console)) : Type 0 where
    pub flow : Control
    pub next : Console
    pub ends : outcome ≡ some (flow, next)
    pub kept : IsConsole l next

  -- A terminal call's outcome less its value.
  abbrev dropped : Option (ℤ × Control × Console) → Option (Control × Console)
  dropped r = r >>= λ x. some (x.1, x.2)

  launch_other-Handled :
      (id : ℕ) (c : Console) → id < 3 → IsConsole l c → Handled (dropped (launch_other l id c))
  unfolding launch_other
  launch_other-Handled id c lt v =
      let c1 : Console = saved l c.cur_term_id c in
      let c2 : Console = set_terminal id (record (c1.terminals id) { is_in_use_flag = 1 }) c1 in
      let v2 : IsConsole l c2 = set_in_use-IsConsole l id c1 (saved-IsConsole l c v) in
      let c3 : Console = restored l id (set_cur_term_id id c2) in
      let mapped : IsMapped l (set_cur_term_id id c2) = record {
        laid_out = v2.mapped.laid_out;
        shown = v2.mapped.shown;
        kernel_table = v2.mapped.kernel_table;
        pages = v2.mapped.pages;
      } in
      record {
        flow = run_shell;
        next = on_io (λ io. enable_irq keyboard_irq (sti io)) c3;
        ends = rw (terminal_save-saved l c.cur_term_id c v.current v.mapped) (
            ap
              (λ r. dropped (
                r >>= λ x.
                some (pos 0, run_shell, on_io (λ io. enable_irq keyboard_irq (sti io)) x.1)))
              (terminal_restore-restored l id (set_cur_term_id id c2) lt mapped));
        kept =
            on_io-IsConsole l (λ io. enable_irq keyboard_irq (sti io)) c3
              (restored-IsConsole l id c2 lt v2);
      }

  terminal_launch-Handled :
      (id : ℕ) (c : Console)
      → id < 3
      → id ≢ c.cur_term_id
      → IsConsole l c
      → Handled (dropped (terminal_launch l id c))
  unfolding terminal_launch
  terminal_launch-Handled id c lt ne v =
      let other : (id == c.cur_term_id) ≡ false = ground arith in
      let known : leb 3 id ≡ false = ground arith in
      let known_cur : leb 3 c.cur_term_id ≡ false = ground (arith, v.current) in
      rw (other, known, known_cur) (launch_other-Handled id c lt v)

  terminal_change-Handled :
      (id : ℕ) (c : Console)
      → id < 3
      → IsConsole l c
      → Handled (dropped (terminal_change l id c >>= λ r. some (r.0, resume, r.1)))
  terminal_change-Handled id c lt v = record {
    flow = resume;
    next = switched l id c;
    ends = rw (terminal_change-switched l id c lt v.current v.mapped) refl;
    kept = switched-IsConsole l id c lt v;
  }

  terminal_los-Handled :
      (id : ℕ) (c : Console) → id < 3 → IsConsole l c → Handled (dropped (terminal_los l id c))
  unfolding terminal_los
  terminal_los-Handled id c lt v =
      let c1 : Console = on_io cli c in
      let v1 : IsConsole l c1 = on_io-IsConsole l cli c v in
      let known : leb 3 id ≡ false = ground arith in
      elim (Bool-cases (id == c.cur_term_id)) [
        | inl e ↦ record {
          flow = resume;
          next = on_io sti c1;
          ends = rw (known, e) refl;
          kept = on_io-IsConsole l sti c1 v1;
        }
        | inr e ↦ elim (Bool-cases ((c.terminals id).is_in_use_flag == 1)) [
          | inl f ↦ rw (known, e, f) (terminal_change-Handled id c1 lt v1)
          | inr f ↦ rw (known, e, f) (terminal_launch-Handled id c1 lt (λ same. ground arith) v1)
        ]
      ]

  function_key-Handled :
      (id : ℕ) (c : Console) → id < 3 → IsConsole l c → Handled (function_key l id c)
  unfolding function_key
  function_key-Handled id c lt v = elim (Bool-cases (c.alt_flag == 5)) [
    | inl e ↦
        let los : Handled (dropped (terminal_los l id (on_io (send_eoi keyboard_irq) c))) =
          terminal_los-Handled id (on_io (send_eoi keyboard_irq) c) lt
            (on_io-IsConsole l (send_eoi keyboard_irq) c v) in
        record { flow = los.flow; next = los.next; ends = rw e los.ends; kept = los.kept }
    | inr e ↦ record { flow = resume; next = c; ends = rw e refl; kept = v }
  ]

  -- A key that is handled at once.
  at_once : {flow : Control} {next : Console} → IsConsole l next → Handled (some (flow, next))
  at_once {flow} {next} v = record { flow = flow; next = next; ends = refl; kept = v }

  choose :
      (b : Bool) {x y : Option (Control × Console)}
      → Handled x
      → Handled y
      → Handled (if b then x else y)
  choose true h k = h
  choose false h k = k

  dispatch-Handled : (key : ℕ) (c : Console) → IsConsole l c → Handled (dispatch l key c)
  unfolding dispatch
  dispatch-Handled key c v = choose (key == 0x3A) (at_once (press_caps-IsConsole l c v)) (
      choose (key == 0x1C) (at_once (press_enter-IsConsole l c v)) (
        choose (key == 0x2A) (at_once (press_shift-IsConsole l c v)) (
          choose (key == 0xAA) (at_once (unpress_shift-IsConsole l c v)) (
            choose (key == 0x36) (at_once (press_shift-IsConsole l c v)) (
              choose (key == 0xB6) (at_once (unpress_shift-IsConsole l c v)) (
                choose (key == 0x0E) (at_once (press_bskp-IsConsole l c v)) (
                  choose (key == 0x1D) (at_once (set_ctrl_flag-IsConsole l 0x1D c v)) (
                    choose (key == 0x9D) (at_once (set_ctrl_flag-IsConsole l 0x9D c v)) (
                      choose (key == 0x38) (at_once (set_alt_flag-IsConsole l 0x38 c v)) (
                        choose (key == 0xB8) (at_once (set_alt_flag-IsConsole l 0xB8 c v)) (
                          choose (key == 0x3B) (function_key-Handled 0 c (omega arith) v) (
                            choose (key == 0x3C) (function_key-Handled 1 c (omega arith) v) (
                              choose (key == 0x3D) (function_key-Handled 2 c (omega arith) v)
                                (at_once (press_other_key-IsConsole l key c v)))))))))))))))

  handle_key-after :
      (flow : Control) (key : ℕ) (c next : Console)
      → dispatch l key (on_io (disable_irq keyboard_irq) c) ≡ some (flow, next)
      → IsConsole l next
      → Handled (handle_key l key c)
  unfolding handle_key
  handle_key-after resume key c next e v =
      rw (e, handle_key) (at_once (on_io-IsConsole l end_interrupt next v))
  handle_key-after run_shell key c next e v = rw (e, handle_key) (at_once v)
  handle_key-after halt_process key c next e v = rw (e, handle_key) (at_once v)

  -- On any scan code the keyboard handler ends, and keeps the console in order: the mode is one of
  -- four, the line has at most 128 characters, the cursor is on the screen, the terminal is one of
  -- three, what the terminals have saved is in the same ranges, video memory is mapped to itself, and the
  -- address of the terminals' pages is mapped to the page of the terminal that is shown.
  pub handle_key-Handled : (key : ℕ) (c : Console) → IsConsole l c → Handled (handle_key l key c)
  handle_key-Handled key c v =
      let c1 : Console = on_io (disable_irq keyboard_irq) c in
      let d : Handled (dispatch l key c1) =
        dispatch-Handled key c1 (on_io-IsConsole l (disable_irq keyboard_irq) c v) in
      handle_key-after d.flow key c d.next d.ends d.kept
