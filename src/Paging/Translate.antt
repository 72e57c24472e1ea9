-- ===== src/Paging/Translate.antt =====
-- How the processor reads the tables: a virtual address to a physical one, and whether user code
-- may use it. This is the reference that the mapping calls are held against.
use chap_os.Common.{ℕ, ◌+◌, ◌*◌, ◌/◌, ◌%◌, ◌^◌, Bool, ◌&&◌, Option, none, some, ◌==◌, if◌then◌else◌}
use chap_os.Paging.{Paging, Layout}

pub record Target : Type 0 where
  pub physical : ℕ
  pub user : Bool

abbrev pub present : ℕ → Bool
present entry = entry % 2 == 1

abbrev pub user_bit : ℕ → Bool
user_bit entry = entry / 4 % 2 == 1

abbrev pub large : ℕ → Bool
large entry = entry / 2 ^ 7 % 2 == 1

-- Entries of a table in 4 kB steps; `dir_user` is what the directory entry allows.
unfoldable pub through_table : (ℕ → ℕ) → Bool → ℕ → Option Target
through_table table dir_user addr =
    let entry = table (addr / 2 ^ 12 % 2 ^ 10) in
    if present entry
    then some (record {
      physical = entry / 2 ^ 12 * 2 ^ 12 + addr % 2 ^ 12;
      user = dir_user && user_bit entry;
    })
    else none

module _ (l : Layout) (p : Paging) where
  -- The table that a directory entry points to, where it is one of the kernel's two.
  unfoldable pub through_dir : ℕ → ℕ → Option Target
  through_dir entry addr =
      if entry / 2 ^ 12 == l.user_page_table_at / 2 ^ 12
      then through_table p.user_page_table (user_bit entry) addr
      else if entry / 2 ^ 12 == l.page_table_at / 2 ^ 12
      then through_table p.page_table (user_bit entry) addr
      else none

  unfoldable pub translate : ℕ → Option Target
  translate addr =
      let entry = p.page_dir (addr / 2 ^ 22) in
      if present entry
      then if large entry
        then some
            (record { physical = entry / 2 ^ 22 * 2 ^ 22 + addr % 2 ^ 22; user = user_bit entry })
        else through_dir entry addr
      else none
