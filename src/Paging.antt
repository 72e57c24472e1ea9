-- ===== src/Paging.antt =====
-- chapOS/student-distrib/paging.c: the page directory, the two page tables, and the calls that map
-- a process's image and video memory. `|` of an aligned address and flags is written as a sum.
pub mod Translate
pub mod Maps
use chap_os.Common.{
  ℕ, zero, suc, ◌+◌, ◌-◌, ◌*◌, ◌/◌, ◌%◌, ◌^◌, Bool, true, false, ltb, leb, ◌==◌, if◌then◌else◌, Mem,
  store, ℤ, pos, negsuc, minus_one,
}

-- The three arrays by index. `stale` is set from a change of an entry until control register 3 is
-- loaded again, which empties the processor's cache of translations.
pub record Paging : Type 0 where
  pub page_dir : ℕ → ℕ
  pub page_table : ℕ → ℕ
  pub user_page_table : ℕ → ℕ
  pub stale : Bool

-- Where the linker has put the two page tables.
pub record Layout : Type 0 where
  pub page_table_at : ℕ
  pub user_page_table_at : ℕ

abbrev pub video : ℕ
video = 0xB8000

abbrev pub hi_video : ℕ
hi_video = 0xB8

abbrev pub page_entries : ℕ
page_entries = 1024

abbrev pub init_4mb_kernel : ℕ
init_4mb_kernel = 0x400083

abbrev pub pde_user_prog : ℕ
pde_user_prog = 0x20

abbrev pub term_vir_addr : ℕ
term_vir_addr = 0x08401000

abbrev pub term_phy_addr : ℕ
term_phy_addr = 0x01C00000

abbrev pub num_term : ℕ
num_term = 3

abbrev pub max_user_image : ℕ
max_user_image = 6

-- Present, writable, open to user code.
abbrev pub enable_user_entry : ℕ
enable_user_entry = 7

abbrev pub set_dir : ℕ → ℕ → Paging → Paging
set_dir i v p = record p { page_dir = store p.page_dir i v; stale = true }

abbrev pub set_table : ℕ → ℕ → Paging → Paging
set_table i v p = record p { page_table = store p.page_table i v; stale = true }

abbrev pub set_user_table : ℕ → ℕ → Paging → Paging
set_user_table i v p = record p { user_page_table = store p.user_page_table i v; stale = true }

-- `paging_setCR` loads control register 3, which also drops cached translations.
abbrev pub paging_set_cr : Paging → Paging
paging_set_cr p = record p { stale = false }

-- The clearing loop, for `left` entries from `i` on.
pub clear_tables : (left : ℕ) → ℕ → Paging → Paging
clear_tables zero i p = p
clear_tables (suc left) i p =
    clear_tables left (i + 1) (set_user_table i 0 (set_table i 0 (set_dir i 0 p)))

module _ (l : Layout) where
  unfoldable pub initialize_paging : Paging → Paging
  initialize_paging p =
      let p1 = clear_tables page_entries 0 p in
      let p2 = set_dir 0 (l.page_table_at / 2 ^ 12 * 2 ^ 12 + 2 + 1) p1 in
      let p3 = set_table hi_video (video + 1 + 2) p2 in
      let p4 = set_dir 1 (p3.page_dir 1 + init_4mb_kernel) p3 in paging_set_cr p4

  unfoldable pub new_user_vid_page : ℕ → Paging → ℤ × Paging
  new_user_vid_page vir_addr p =
      let p1 = set_dir (vir_addr / 2 ^ 22) (l.user_page_table_at + enable_user_entry) p in
      let p2 = set_user_table (vir_addr / 2 ^ 12 % 2 ^ 10) (video + enable_user_entry) p1 in
      (pos 0, paging_set_cr p2)

  unfoldable pub map_term_vid : ℕ → Paging → ℤ × Paging
  map_term_vid term_id p = if leb num_term term_id then (minus_one, p) else (
    pos 0,
    paging_set_cr (
        set_user_table (term_vir_addr / 2 ^ 12 % 2 ^ 10)
          (term_phy_addr + term_id * 4096 + enable_user_entry)
          (set_dir (term_vir_addr / 2 ^ 22) (l.user_page_table_at + enable_user_entry) p)),
  )

-- 4 MB page, user level, writable, present.
unfoldable pub map_user_img_page : ℤ → Paging → ℤ × Paging
map_user_img_page (negsuc n) p = (minus_one, p)
map_user_img_page (pos process_id) p = if ltb max_user_image process_id then (minus_one, p) else (
  pos 0,
  paging_set_cr (set_dir pde_user_prog ((process_id + 2) * 0x00800000 / 2 + 0x80 + 4 + 3) p),
)
