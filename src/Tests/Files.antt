-- ===== src/Tests/Files.antt =====
-- The file system's theorems on the image.
use chap_os.Common.{
  ℕ, ◌+◌, ◌≤◌, ◌<◌, ◌≡◌, ◌≢◌, not, refl, arith, inl, inr, Bool, true, leb, ◌==◌, ==_iff, tested,
  tested_at, pos, minus_one,
}
use chap_os.FileSys.{
  read_data, file_read, read_dentry_by_name, dir_read, dir_entry, block_address, get_file_size,
  set_file_pos, to_uint32,
}
use chap_os.FileSys.Data.{Clear, delivered}
use chap_os.FileSys.Read.{read_data-delivered}
use chap_os.FileSys.Append.{file_read-append}
use chap_os.FileSys.Lookup.{filled_in, read_dentry_by_name-first, read_dentry_by_name-missing}
use chap_os.FileSys.Listing.{dir_read-entry}
use chap_os.Text.Copy.{padded}
use chap_os.Text.Compare.{Agree}
use chap_os.Tests.{image, image-IsBytes, mounted, process}

abbrev far_block : ℕ → Bool
far_block b = leb (block_address mounted image 73728 b + 4096) 200000

far_blocks : tested 1023 far_block ≡ true
unfolding tested
far_blocks = refl

pub image-Clear : (buf n : ℕ) → 200000 ≤ buf → Clear mounted image 73728 buf n
image-Clear buf n le = record {
  inode = inl (omega arith);
  blocks = λ b lt.
      let far : far_block b ≡ true = tested_at 1023 far_block b far_blocks lt in
      inl (far_lem (block_address mounted image 73728 b) buf le far);
}
  where
    far_lem : (a to : ℕ) → 200000 ≤ to → leb (a + 4096) 200000 ≡ true → a + 4096 ≤ to
    far_lem a to le h = ground arith

read_data-delivered_example :
    read_data mounted 1 4090 200000 20 image
    ≡ (pos 20, delivered mounted image 73728 4090 200000 20)
unfolding get_file_size
read_data-delivered_example =
    read_data-delivered mounted 1 4090 200000 20 image (omega arith) (omega arith) (omega arith)
      (image-Clear 200000 20 (omega arith))

file_read-append_example :
    let (n, p1, m1) = file_read mounted 3 200000 (pos 10) (process 2) image in
    let (k, p2, m2) = file_read mounted 3 200010 (pos 900) p1 m1 in
    let (total, p3, m3) = file_read mounted 3 200000 (pos 910) (process 2) image in
    (n ≡ pos 10) × (total ≡ pos (10 + to_uint32 k)) × (p2 ≡ p3) × (m2 ≡ m3)
unfolding get_file_size
file_read-append_example =
    file_read-append mounted 3 200000 10 900 (process 2) image (omega arith) (omega arith)
      (omega arith) (omega arith) (inl (omega arith)) (image-Clear 200000 910 (omega arith))

-- Only the second entry is called "f", and none is called "x".
pub dot_other : (j : ℕ) → j < 1 → ¬ Agree image 300 (dir_entry mounted j) 32
unfolding padded
dot_other j lt same = ground (arith, same 0)

abbrev same_byte : ℕ → Bool
same_byte k = padded image 300 k == padded image (dir_entry mounted 1) k

same_bytes : tested 32 same_byte ≡ true
unfolding tested padded
same_bytes = refl

pub f_same : Agree image 300 (dir_entry mounted 1) 32
f_same k lt =
    (==_iff (padded image 300 k) (padded image (dir_entry mounted 1) k)).0
      (tested_at 32 same_byte k same_bytes lt)

abbrev pub other_name : ℕ → Bool
other_name j = not (image (dir_entry mounted j) == b'x')

pub other_names : tested 63 other_name ≡ true
unfolding tested
other_names = refl

pub differ : (v : ℕ) → not (v == b'x') ≡ true → b'x' ≢ v
differ v h e = ground arith

x_other : (j : ℕ) → j < 63 → ¬ Agree image 400 (dir_entry mounted j) 32
unfolding padded
x_other j lt same =
    let other : other_name j ≡ true = tested_at 63 other_name j other_names lt in
    let first : image 400 ≡ image (dir_entry mounted j) = same 0 (omega arith) in
    differ (image (dir_entry mounted j)) other first

read_dentry_by_name-first_example :
    ((read_dentry_by_name mounted 300 1000 image).0 ≡ pos 0)
    × ((read_dentry_by_name mounted 300 1000 image).1 1036 ≡ filled_in image 300 65664 1000 1036)
read_dentry_by_name-first_example =
    read_dentry_by_name-first mounted 300 1000 1 1036 image image-IsBytes (omega arith) f_same
      dot_other (inr (omega arith)) (inl (omega arith))

read_dentry_by_name-missing_example :
    read_dentry_by_name mounted 400 1000 image ≡ (minus_one, image)
read_dentry_by_name-missing_example =
    read_dentry_by_name-missing mounted 400 1000 image image-IsBytes x_other

dir_read-entry_example :
    ((dir_read mounted 1000 4 200000 (pos 32) (process 2) image).0 ≡ pos 32)
    × ((dir_read mounted 1000 4 200000 (pos 32) (process 2) image).1 ≡ set_file_pos 4 2 (process 2))
    × ((dir_read mounted 1000 4 200000 (pos 32) (process 2) image).2 200000 ≡ padded image 65664 0)
dir_read-entry_example =
    dir_read-entry mounted 1000 4 200000 200000 (pos 32) (process 2) image image-IsBytes
      (omega arith) (ground arith) (inl (omega arith)) (inr (omega arith))
