-- ===== src/Keyboard/Switching.antt =====
-- Switching between terminals that are in use: what is saved, and that it comes back.
use chap_os.Common.{
  ℕ, ◌+◌, ◌*◌, ◌/◌, ◌%◌, ◌^◌, ◌≤◌, ◌<◌, ◌≡◌, ◌≢◌, ◌⊎◌, refl, ap, sym, arith, inl, inr, Bool-cases,
  true, false, some, leb, ◌==◌, Mem, copied, pos,
}
use chap_os.Block.Copy.{memcpy-copied}
use chap_os.Pic.{sti}
use chap_os.Paging.{Paging, Layout, map_term_vid, term_vir_addr}
use chap_os.Paging.Maps.{IsLaidOut, translate-map_term_vid}
use chap_os.Screen.{video, move_curser}
use chap_os.Screen.Cursor.{InScreen}
use chap_os.Keyboard.{Console, on_display, on_io}
use chap_os.Keyboard.Terminal.{
  set_cur_term_id, set_terminal, show_terminal, map_terminal, phys, copy_page, terminal_restore,
  terminal_save, terminal_change,
}

-- The physical page that keeps the screen of terminal `id` while another one is shown.
abbrev pub page_of : ℕ → ℕ
page_of id = 0x1C00000 + id * 4096

module _ (l : Layout) where
  -- Video memory is mapped to itself, not through the user's table, and each terminal has the address
  -- that `init_terminals` gives it for its page; which page that address is mapped to is not said.
  pub record IsMapped (c : Console) : Type 0 where
    pub laid_out : IsLaidOut l
    pub shown : phys l video c ≡ some video
    pub kernel_table : c.paging.page_dir 0 / 2 ^ 12 ≢ l.user_page_table_at / 2 ^ 12
    pub pages : (id : ℕ) → (c.terminals id).term_vid_mem ≡ term_vir_addr

  map_terminal-dir :
      (id : ℕ) (p : Paging) → id < 3 → (map_term_vid l id p).1.page_dir 0 ≡ p.page_dir 0
  unfolding map_term_vid
  map_terminal-dir id p lt = ground arith

  pub map_terminal-phys :
      (id : ℕ) (c : Console)
      → id < 3
      → IsMapped c
      → (phys l video (map_terminal l id c) ≡ some video)
        × (phys l term_vir_addr (map_terminal l id c) ≡ some (page_of id))
  map_terminal-phys id c lt v =
      let (_, _, page, rest) =
        translate-map_term_vid l c.paging id term_vir_addr video v.laid_out lt refl (omega arith)
          v.kernel_table in
      (rw (rest, phys) v.shown, rw (page, phys) (ap some (omega arith)))

  pub map_terminal-IsMapped :
      (id : ℕ) (c : Console) → id < 3 → IsMapped c → IsMapped (map_terminal l id c)
  map_terminal-IsMapped id c lt v = record {
    laid_out = v.laid_out;
    shown = (map_terminal-phys id c lt v).0;
    kernel_table = rw (map_terminal-dir id c.paging lt) v.kernel_table;
    pages = v.pages;
  }

  -- What `terminal_save` and `terminal_restore` leave of a console.
  abbrev pub note_cursor : ℕ → Console → Console
  note_cursor id c =
      set_terminal id
        (record (c.terminals id) {
          x = c.display.screen_x % 2 ^ 8;
          y = c.display.screen_y % 2 ^ 8;
          saved_index = c.buffer_index;
        })
        c

  abbrev pub copy_at : ℕ → ℕ → Console → Console
  copy_at dest src c = on_display (λ d. record d { mem = copied d.mem dest src 4096 }) c

  abbrev pub saved : ℕ → Console → Console
  saved id c = copy_at (page_of id) video (map_terminal l id (note_cursor id c))

  abbrev pub restored : ℕ → Console → Console
  restored id c =
      record (copy_at video (page_of id)
        (map_terminal l id (on_display (show_terminal (c.terminals id)) c))) {
          buffer_index = (c.terminals id).saved_index;
        }

  pub note_cursor-IsMapped : (id : ℕ) (c : Console) → IsMapped c → IsMapped (note_cursor id c)
  note_cursor-IsMapped id c v = record {
    laid_out = v.laid_out;
    shown = v.shown;
    kernel_table = v.kernel_table;
    pages =
        λ k. elim (Bool-cases (k == id)) [ inl e ↦ rw e (v.pages id) | inr e ↦ rw e (v.pages k) ];
  }

  copy_page-copied :
      (dest src to from : ℕ) (c : Console)
      → phys l dest c ≡ some to
      → phys l src c ≡ some from
      → (to ≤ from) ⊎ (from + 4096 ≤ to)
      → copy_page l dest src c ≡ some (copy_at to from c)
  unfolding copy_page
  copy_page-copied dest src to from c e f h =
      rw (e, f, memcpy-copied c.display.mem to from 4096 h) refl

  pub terminal_save-saved :
      (id : ℕ) (c : Console) → id < 3 → IsMapped c → terminal_save l id c ≡ some (pos 0, saved id c)
  unfolding terminal_save
  terminal_save-saved id c lt v =
      let known : leb 3 id ≡ false = ground arith in
      let c1 : Console = map_terminal l id (note_cursor id c) in
      let v1 : IsMapped c1 =
        map_terminal-IsMapped id (note_cursor id c) lt (note_cursor-IsMapped id c v) in
      let at = map_terminal-phys id (note_cursor id c) lt (note_cursor-IsMapped id c v) in
      let copy : copy_page l term_vir_addr video c1 ≡ some (copy_at (page_of id) video c1) =
        copy_page-copied term_vir_addr video (page_of id) video c1 at.1 at.0 (omega arith) in
      rw known (rw (v1.pages id) (rw copy refl))

  pub terminal_restore-restored :
      (id : ℕ) (c : Console)
      → id < 3
      → IsMapped c
      → terminal_restore l id c ≡ some (pos 0, restored id c)
  unfolding terminal_restore
  terminal_restore-restored id c lt v =
      let known : leb 3 id ≡ false = ground arith in
      let shown : Console = on_display (show_terminal (c.terminals id)) c in
      let vs : IsMapped shown = record {
        laid_out = v.laid_out;
        shown = v.shown;
        kernel_table = v.kernel_table;
        pages = v.pages;
      } in
      let c1 : Console = map_terminal l id shown in
      let at = map_terminal-phys id shown lt vs in
      let copy : copy_page l video term_vir_addr c1 ≡ some (copy_at video (page_of id) c1) =
        copy_page-copied video term_vir_addr video (page_of id) c1 at.0 at.1 (omega arith) in
      rw (known, v.pages id, copy) refl

  pub saved-IsMapped : (id : ℕ) (c : Console) → id < 3 → IsMapped c → IsMapped (saved id c)
  saved-IsMapped id c lt v =
      let at : IsMapped (map_terminal l id (note_cursor id c)) =
        map_terminal-IsMapped id (note_cursor id c) lt (note_cursor-IsMapped id c v) in
      record {
        laid_out = at.laid_out;
        shown = at.shown;
        kernel_table = at.kernel_table;
        pages = at.pages;
      }

  -- The console once terminal `id` is the one shown.
  abbrev pub switched : ℕ → Console → Console
  switched id c =
      on_io sti (map_terminal l id (set_cur_term_id id (restored id (saved c.cur_term_id c))))

  pub switched-IsMapped :
      (id : ℕ) (c : Console) → id < 3 → c.cur_term_id < 3 → IsMapped c → IsMapped (switched id c)
  switched-IsMapped id c lt cur v =
      let c1 : Console = saved c.cur_term_id c in
      let v1 : IsMapped c1 = saved-IsMapped c.cur_term_id c cur v in
      let v2 : IsMapped (map_terminal l id c1) = map_terminal-IsMapped id c1 lt v1 in
      let v3 : IsMapped (map_terminal l id (map_terminal l id c1)) =
        map_terminal-IsMapped id (map_terminal l id c1) lt v2 in
      record {
        laid_out = v3.laid_out;
        shown = v3.shown;
        kernel_table = v3.kernel_table;
        pages = v3.pages;
      }

  pub terminal_change-switched :
      (id : ℕ) (c : Console)
      → id < 3
      → c.cur_term_id < 3
      → IsMapped c
      → terminal_change l id c ≡ some (pos 0, switched id c)
  unfolding terminal_change
  terminal_change-switched id c lt cur v =
      let known : leb 3 id ≡ false = ground arith in
      let known_cur : leb 3 c.cur_term_id ≡ false = ground arith in
      let c1 : Console = saved c.cur_term_id c in
      rw
        (
          known,
          terminal_save-saved c.cur_term_id c cur v,
          known_cur,
          terminal_restore-restored id c1 lt (saved-IsMapped c.cur_term_id c cur v),
        )
        refl

  -- The screen's memory: saving and restoring, twice.
  there_and_back :
      (m : Mem) (a b addr : ℕ)
      → a < 3
      → b < 3
      → a ≢ b
      → video ≤ addr
      → addr < video + 4096
      → copied
          (copied
            (copied (copied m (page_of a) video 4096) video (page_of b) 4096)
            (page_of b)
            video
            4096)
          video
          (page_of a)
          4096
          addr
        ≡ m addr
  there_and_back m a b addr ha hb ne lo hi = ground arith

  -- With three terminals mapped as `init_terminals` maps them, changing from the terminal that is shown
  -- to another and back succeeds, and brings back the screen's 4 kB, the cursor, the length of the
  -- line that was being typed, and the terminal's number.
  pub terminal_change-back :
      (id addr : ℕ) (c : Console)
      → id < 3
      → c.cur_term_id < 3
      → id ≢ c.cur_term_id
      → InScreen c.display
      → IsMapped c
      → video ≤ addr
      → addr < video + 4096
      → let c1 = switched id c in
        let c2 = switched c.cur_term_id c1 in
        (terminal_change l id c ≡ some (pos 0, c1))
        × (terminal_change l c.cur_term_id c1 ≡ some (pos 0, c2))
        × (c2.display.mem addr ≡ c.display.mem addr)
        × (c2.display.screen_x ≡ c.display.screen_x)
        × (c2.display.screen_y ≡ c.display.screen_y)
        × (c2.buffer_index ≡ c.buffer_index)
        × (c2.cur_term_id ≡ c.cur_term_id)
  unfolding move_curser
  terminal_change-back id addr c lt cur ne on_screen v lo hi =
      let a : ℕ = c.cur_term_id in
      let other : (a == id) ≡ false = ground arith in
      let self : (a == a) ≡ true = ground arith in
      let c1 : Console = switched id c in
      (
        terminal_change-switched id c lt cur v,
        terminal_change-switched c.cur_term_id c1 cur lt (switched-IsMapped id c lt cur v),
        there_and_back c.display.mem a id addr cur lt (λ e. ne (sym e)) lo hi,
        rw (other, self) (omega arith),
        rw (other, self) (omega arith),
        rw (other, self) refl,
        refl,
      )
