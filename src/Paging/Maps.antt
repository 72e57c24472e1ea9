-- ===== src/Paging/Maps.antt =====
-- What each mapping call of paging.c does to the translation of every address.
use chap_os.Common.{
  ℕ, zero, suc, ◌+◌, ◌*◌, ◌/◌, ◌%◌, ◌^◌, ◌≤◌, ◌<◌, ◌≡◌, ◌≢◌, refl, arith, true, false, ◌||◌, none,
  some, ◌==◌, if◌then◌else◌, pos, negsuc, minus_one, within,
}
use chap_os.Paging.{
  Paging, Layout, clear_tables, initialize_paging, new_user_vid_page, map_term_vid,
  map_user_img_page, paging_set_cr, set_user_table, set_table, set_dir, term_vir_addr, video,
}
use chap_os.Paging.Translate.{translate, through_dir, through_table}

-- The tables are aligned to 4 kB, as their declarations ask, and are two.
pub record IsLaidOut (l : Layout) : Type 0 where
  pub page_table_aligned : l.page_table_at % 4096 ≡ 0
  pub user_aligned : l.user_page_table_at % 4096 ≡ 0
  pub distinct : l.page_table_at ≢ l.user_page_table_at

-- The image of process `n` is the 4 MB at (n + 2) * 4 MB, at addresses 128 MB to 132 MB, open to
-- user code, once `map_user_img_page` has returned 0 for it, for `n` up to 6; every other address is
-- translated as before, and the cached translations are dropped.
pub translate-map_user_img_page :
    (l : Layout) (p : Paging) (n addr : ℕ)
    → n ≤ 6
    → let (result, p') = map_user_img_page (pos n) p in
      (result ≡ pos 0)
      × (p'.stale ≡ false)
      × (translate l p' addr ≡ (
          if addr / 2 ^ 22 == 32
          then some (record { physical = (n + 2) * 2 ^ 22 + addr % 2 ^ 22; user = true })
          else translate l p addr))
unfolding map_user_img_page translate through_dir through_table
translate-map_user_img_page l p n addr h = ground arith

-- A number that names no process image is refused with -1, and nothing changes.
pub map_user_img_page-refused :
    (p : Paging) (n : ℕ)
    → (6 < n → map_user_img_page (pos n) p ≡ (minus_one, p))
      × (map_user_img_page (negsuc n) p ≡ (minus_one, p))
unfolding map_user_img_page
map_user_img_page-refused p n = (λ h. ground arith, refl)

-- A page mapped through the user table, as both video calls do it.
abbrev user_page : Layout → ℕ → ℕ → Paging → Paging
user_page l vir entry p = paging_set_cr (
    set_user_table (vir / 2 ^ 12 % 2 ^ 10) entry
      (set_dir (vir / 2 ^ 22) (l.user_page_table_at + 7) p))

module _ (l : Layout) (p : Paging) (vir entry addr : ℕ) (v : IsLaidOut l) where
  user_page-inside :
      addr / 2 ^ 12 ≡ vir / 2 ^ 12
      → entry % 8 ≡ 7
      → translate l (user_page l vir entry p) addr
        ≡ some (record { physical = entry / 2 ^ 12 * 2 ^ 12 + addr % 2 ^ 12; user = true })
  unfolding translate through_dir through_table
  user_page-inside same flags = let dir : addr / 2 ^ 22 ≡ vir / 2 ^ 22 = omega arith in ground arith

  -- An address in another 4 MB that does not go through the user table.
  user_page-outside :
      addr / 2 ^ 22 ≢ vir / 2 ^ 22
      → p.page_dir (addr / 2 ^ 22) / 2 ^ 12 ≢ l.user_page_table_at / 2 ^ 12
      → translate l (user_page l vir entry p) addr ≡ translate l p addr
  unfolding translate through_dir through_table
  user_page-outside other kernel = ground arith

map_term_vid_lem :
    (l : Layout) (p : Paging) (id addr : ℕ)
    → IsLaidOut l
    → let (result, p') = map_term_vid l id p in
      (3 ≤ id → (result ≡ minus_one) × (p' ≡ p))
      × (id < 3 → (result ≡ pos 0) × (p'.stale ≡ false))
      × (id < 3
          → addr / 2 ^ 12 ≡ 0x8401
          → translate l p' addr
            ≡ some (record { physical = 0x1C00000 + id * 4096 + addr % 4096; user = true }))
      × (addr / 2 ^ 22 ≢ 33
          → p.page_dir (addr / 2 ^ 22) / 2 ^ 12 ≢ l.user_page_table_at / 2 ^ 12
          → translate l p' addr ≡ translate l p addr)
unfolding map_term_vid
map_term_vid_lem l p id addr v =
    let entry = 0x1C00000 + id * 4096 + 7 in
    (
      λ h. ground arith,
      λ h. ground arith,
      λ h same. ground (arith, user_page-inside l p term_vir_addr entry addr v),
      λ other kernel. ground (arith, user_page-outside l p term_vir_addr entry addr v),
    )

-- Terminal `id`, one of three, gets the page at 28 MB + id * 4 kB, at address 0x8401000, open to
-- user code, and the cached translations are dropped; an address in another 4 MB that does not go
-- through the user table is translated as before.
pub translate-map_term_vid :
    (l : Layout) (p : Paging) (id addr other : ℕ)
    → IsLaidOut l
    → id < 3
    → addr / 2 ^ 12 ≡ 0x8401
    → other / 2 ^ 22 ≢ 33
    → p.page_dir (other / 2 ^ 22) / 2 ^ 12 ≢ l.user_page_table_at / 2 ^ 12
    → let (result, p') = map_term_vid l id p in
      (result ≡ pos 0)
      × (p'.stale ≡ false)
      × (translate l p' addr
          ≡ some (record { physical = 0x1C00000 + id * 4096 + addr % 4096; user = true }))
      × (translate l p' other ≡ translate l p other)
translate-map_term_vid l p id addr other v lt same away kernel =
    let (_, done, page, _) = map_term_vid_lem l p id addr v in
    let (_, _, _, rest) = map_term_vid_lem l p id other v in
    ((done lt).0, (done lt).1, page lt same, rest away kernel)

-- After `new_userVID_page` the page of `vir` is video memory, open to user code, and the cached
-- translations are dropped; an address in another 4 MB that does not go through the user table is
-- translated as before.
pub translate-new_user_vid_page :
    (l : Layout) (p : Paging) (vir addr : ℕ)
    → IsLaidOut l
    → let (result, p') = new_user_vid_page l vir p in
      (result ≡ pos 0)
      × (p'.stale ≡ false)
      × (addr / 2 ^ 12 ≡ vir / 2 ^ 12
          → translate l p' addr ≡ some (record { physical = video + addr % 4096; user = true }))
      × (addr / 2 ^ 22 ≢ vir / 2 ^ 22
          → p.page_dir (addr / 2 ^ 22) / 2 ^ 12 ≢ l.user_page_table_at / 2 ^ 12
          → translate l p' addr ≡ translate l p addr)
unfolding new_user_vid_page
translate-new_user_vid_page l p vir addr v = (
  refl,
  refl,
  λ same. user_page-inside l p vir (video + 7) addr v same refl,
  λ other kernel. user_page-outside l p vir (video + 7) addr v other kernel,
)

-- No two addresses of process images, of one process or of two, are one place in physical memory.
images_apart :
    (l : Layout) (p : Paging) (n k a b : ℕ)
    → n ≤ 6
    → k ≤ 6
    → a / 2 ^ 22 ≡ 32
    → b / 2 ^ 22 ≡ 32
    → translate l (map_user_img_page (pos n) p).1 a ≡ translate l (map_user_img_page (pos k) p).1 b
    → (n ≡ k) × (a ≡ b)
images_apart l p n k a b hn hk ha hb e = ground (
  arith,
  (translate-map_user_img_page l p n a hn).2,
  (translate-map_user_img_page l p k b hk).2,
  e,
)

-- The page of terminal `id` is the page `id` of the image of process 5: the two are one piece of
-- physical memory.
pub terminal_page-in_image_5 :
    (l : Layout) (p q : Paging) (id offset : ℕ)
    → IsLaidOut l
    → id < 3
    → offset < 4096
    → translate l (map_term_vid l id p).1 (term_vir_addr + offset)
      ≡ translate l (map_user_img_page (pos 5) q).1 (2 ^ 27 + id * 4096 + offset)
terminal_page-in_image_5 l p q id offset v h ho = ground (
  arith,
  (map_term_vid_lem l p id (term_vir_addr + offset) v).2,
  (translate-map_user_img_page l q 5 (2 ^ 27 + id * 4096 + offset) (omega arith)).2,
)

clear_tables-cleared :
    (left i : ℕ) (p : Paging) (j : ℕ)
    → let p' = clear_tables left i p in
      (p'.page_dir j ≡ (if within i left j then 0 else p.page_dir j))
      × (p'.page_table j ≡ (if within i left j then 0 else p.page_table j))
      × (p'.user_page_table j ≡ (if within i left j then 0 else p.user_page_table j))
unfolding clear_tables
clear_tables-cleared zero i p j = ground arith
clear_tables-cleared (suc left) i p j = ground (
  arith,
  clear_tables-cleared left (i + 1) (set_user_table i 0 (set_table i 0 (set_dir i 0 p))) j,
)

-- Once paging is set up, whatever the tables held, the kernel's 4 MB at 4 MB and the page of video
-- memory are at their own physical addresses and closed to user code, and no other address below
-- 2 ^ 32 is mapped.
pub translate-initialize_paging :
    (l : Layout) (p : Paging) (addr : ℕ)
    → IsLaidOut l
    → addr < 2 ^ 32
    → translate l (initialize_paging l p) addr ≡ (
        if (addr / 2 ^ 22 == 1) || (addr / 2 ^ 12 == 0xB8)
        then some (record { physical = addr; user = false })
        else none)
unfolding initialize_paging translate through_dir through_table
translate-initialize_paging l p addr v h = ground (
  arith,
  clear_tables-cleared 1024 0 p (addr / 2 ^ 22),
  clear_tables-cleared 1024 0 p (addr / 2 ^ 12 % 2 ^ 10),
  clear_tables-cleared 1024 0 p 1,
)
