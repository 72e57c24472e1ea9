-- ===== src/Keyboard/Terminal.antt =====
-- The terminal half of keyboard.c: saving, restoring, launching and switching terminals. `l` says
-- where the page tables lie, which decides how the copies' addresses are translated.
use chap_os.Common.{
  ℕ, zero, suc, ◌+◌, ◌*◌, ◌%◌, ◌^◌, ◌||◌, Option, none, some, List, [], ◌∷◌, leb, ◌==◌,
  if◌then◌else◌, ◌>>=◌, Mem, store, ℤ, pos, minus_one,
}
use chap_os.Block.{memcpy}
use chap_os.Pic.{cli, sti, enable_irq}
use chap_os.Paging.{Layout, map_term_vid, num_term, term_vir_addr}
use chap_os.Paging.Translate.{translate}
use chap_os.Screen.{Display, video, print_text, move_curser, set_coord_x, set_coord_y}
use chap_os.Keyboard.{Term, Console, Control, resume, run_shell, keyboard_irq, on_display, on_io}

abbrev pub set_cur_term_id : ℕ → Console → Console
set_cur_term_id new_id c = record c { cur_term_id = new_id }

abbrev pub set_terminal : ℕ → Term → Console → Console
set_terminal id t c = record c { terminals = λ k. if k == id then t else c.terminals k }

abbrev launch_fail : List ℕ
launch_fail = b'l' ∷ b'a' ∷ b'u' ∷ b'n' ∷ b'c' ∷ b'h' ∷ b' ' ∷ b'f' ∷ b'a' ∷ b'i' ∷ b'l' ∷ []

-- The attribute bytes of `left` cells from `k` on, in a page at `page`.
unfoldable pub colour_cells : (left : ℕ) → ℕ → ℕ → Mem → Mem
colour_cells zero k page m = m
colour_cells (suc left) k page m = colour_cells left (k + 1) page (store m (page + 2 * k + 1) 2)

abbrev pub show_terminal : Term → Display → Display
show_terminal t d = move_curser (set_coord_y t.y (set_coord_x t.x d))

module _ (l : Layout) where
  -- The physical address of a virtual one; `none` is a page fault.
  abbrev pub phys : ℕ → Console → Option ℕ
  phys addr c = elim (translate l c.paging addr) [ none ↦ none | some t ↦ some t.physical ]

  -- `memcpy` of the 4 kB at `src` to `dest`, both at the start of a page.
  unfoldable pub copy_page : ℕ → ℕ → Console → Option Console
  copy_page dest src c = do
    to ← phys dest c
    from ← phys src c
    some (on_display (λ d. record d { mem = memcpy d.mem to from 0x1000 }) c)

  abbrev pub map_terminal : ℕ → Console → Console
  map_terminal id c = record c { paging = (map_term_vid l id c.paging).1 }

  unfoldable pub terminal_restore : ℕ → Console → Option (ℤ × Console)
  terminal_restore id c = if leb num_term id then some (minus_one, c) else do
    let c1 = map_terminal id (on_display (show_terminal (c.terminals id)) c)
    c2 ← copy_page video (c1.terminals id).term_vid_mem c1
    some (pos 0, record c2 { buffer_index = (c2.terminals id).saved_index })

  -- The coordinates are stored in bytes.
  unfoldable pub terminal_save : ℕ → Console → Option (ℤ × Console)
  terminal_save id c = if leb num_term id then some (minus_one, c) else do
    let t = record (c.terminals id) {
      x = c.display.screen_x % 2 ^ 8;
      y = c.display.screen_y % 2 ^ 8;
      saved_index = c.buffer_index;
    }
    let c1 = map_terminal id (set_terminal id t c)
    c2 ← copy_page (c1.terminals id).term_vid_mem video c1
    some (pos 0, c2)

  -- `terminal_launch` past its tests. Its `execute("shell")` is taken not to return: where that call
  -- fails, the source goes on to the end of the handler.
  unfoldable pub launch_other : ℕ → Console → Option (ℤ × Control × Console)
  launch_other target c = terminal_save c.cur_term_id c >>= λ saved.
      (terminal_restore target (
          set_cur_term_id target (
            set_terminal target (record (saved.1.terminals target) { is_in_use_flag = 1 }) saved.1))
        >>= λ restored.
            some (pos 0, run_shell, on_io (λ io. enable_irq keyboard_irq (sti io)) restored.1))

  unfoldable pub terminal_launch : ℕ → Console → Option (ℤ × Control × Console)
  terminal_launch target c =
      if target == c.cur_term_id
      then some (pos 0, resume, c)
      else if leb num_term target || leb num_term c.cur_term_id
      then some (minus_one, resume, on_display (print_text launch_fail) c)
      else launch_other target c

  unfoldable pub terminal_change : ℕ → Console → Option (ℤ × Console)
  terminal_change target c =
      if leb num_term target
      then some (minus_one, on_io sti c)
      else (terminal_save c.cur_term_id c >>= λ saved.
          if leb num_term c.cur_term_id
          then some (minus_one, on_io sti saved.1)
          else (terminal_restore target saved.1 >>= λ restored.
              some (pos 0, on_io sti (map_terminal target (set_cur_term_id target restored.1)))))

  unfoldable pub terminal_los : ℕ → Console → Option (ℤ × Control × Console)
  terminal_los target c =
      let c1 = on_io cli c in
      if leb num_term target
      then some (minus_one, resume, on_io sti c1)
      else if target == c.cur_term_id
      then some (pos 0, resume, on_io sti c1)
      else if (c.terminals target).is_in_use_flag == 1
      then (terminal_change target c1 >>= λ r. some (r.0, resume, r.1))
      else terminal_launch target c1

  -- The loop of `init_terminals`, for `left` more terminals from `i` on.
  unfoldable pub init_each : (left : ℕ) → ℕ → Console → Option Console
  init_each zero i c = some c
  init_each (suc left) i c =
      let t : Term = record {
        term_id = i;
        active_flag = 0;
        x = 0;
        y = 0;
        saved_index = 0;
        is_in_use_flag = 0;
        term_vid_mem = term_vir_addr;
      } in
      let c1 = map_terminal i (set_terminal i t c) in
      phys term_vir_addr c1 >>= λ page.
      init_each left (i + 1)
        (on_display (λ d. record d { mem = colour_cells 2000 0 page d.mem }) c1)

  -- `init_terminals`, up to its `execute ("shell")`.
  unfoldable pub init_terminals : Console → Option (Control × Console)
  init_terminals c = do
    c1 ← init_each num_term 0 c
    let t = record (c1.terminals 0) { is_in_use_flag = 1 }
    let c2 =
        set_terminal 0 t
          (record c1 { buffer_index = (c1.terminals 0).saved_index; cur_term_id = 0 })
    r ← terminal_restore 0 c2
    c3 ← copy_page video (r.1.terminals 0).term_vid_mem r.1
    some (run_shell, c3)
