-- ===== src/Segments.antt =====
-- The segment descriptors that kernel.c sets: `seg_desc_t` and its macros in
-- chapOS/student-distrib/x86_desc.h, and the two blocks of `entry` that fill one in.
use chap_os.Common.{ℕ, ◌+◌, ◌*◌, ◌/◌, ◌%◌, ◌^◌, ◌<◌, ◌≡◌, refl, arith}

-- `seg_desc_t`
pub record SegDesc : Type 0 where
  pub seg_lim_15_00 : ℕ
  pub base_15_00 : ℕ
  pub base_23_16 : ℕ
  pub kind : ℕ
  pub sys : ℕ
  pub dpl : ℕ
  pub present : ℕ
  pub seg_lim_19_16 : ℕ
  pub avail : ℕ
  pub reserved : ℕ
  pub opsize : ℕ
  pub granularity : ℕ
  pub base_31_24 : ℕ

-- `SET_LDT_PARAMS` and `SET_TSS_PARAMS`, which are the same.
unfoldable pub set_params : (address limit : ℕ) → SegDesc → SegDesc
set_params address limit g = record g {
  base_31_24 = address / 2 ^ 24 % 2 ^ 8;
  base_23_16 = address / 2 ^ 16 % 2 ^ 8;
  base_15_00 = address % 2 ^ 16;
  seg_lim_19_16 = limit / 2 ^ 16 % 2 ^ 4;
  seg_lim_15_00 = limit % 2 ^ 16;
}

-- `the_ldt_desc`, from what its bytes held before.
unfoldable pub ldt_descriptor : (ldt ldt_size : ℕ) → SegDesc → SegDesc
ldt_descriptor ldt ldt_size g = set_params ldt ldt_size (record g {
  granularity = 0;
  opsize = 1;
  reserved = 0;
  avail = 0;
  present = 1;
  dpl = 0;
  sys = 0;
  kind = 2;
})

-- `the_tss_desc`, with `TSS_SIZE` 104.
unfoldable pub tss_descriptor : (tss tss_size : ℕ) → SegDesc → SegDesc
tss_descriptor tss tss_size g = set_params tss tss_size (record g {
  granularity = 0;
  opsize = 0;
  reserved = 0;
  avail = 0;
  seg_lim_19_16 = 0;
  present = 1;
  dpl = 0;
  sys = 0;
  kind = 9;
  seg_lim_15_00 = 104;
})

-- The segment that the processor takes from a descriptor.
abbrev pub base : SegDesc → ℕ
base g = g.base_31_24 * 2 ^ 24 + g.base_23_16 * 2 ^ 16 + g.base_15_00

abbrev pub last_offset : SegDesc → ℕ
last_offset g = g.seg_lim_19_16 * 2 ^ 16 + g.seg_lim_15_00

-- The byte of a descriptor that has its kind, level and presence.
abbrev pub access_byte : SegDesc → ℕ
access_byte g = g.present * 2 ^ 7 + g.dpl * 2 ^ 5 + g.sys * 2 ^ 4 + g.kind

-- The descriptors of the local descriptor table and of the task state segment give the processor the
-- addresses and limits they are made from, counted in bytes; both are present system segments of the
-- kernel's level, one of the kind of a local descriptor table, one of an available 32-bit task: the
-- bytes that say so are 0x82 and 0x89.
pub descriptors_describe :
    (address limit : ℕ) (g : SegDesc)
    → address < 2 ^ 32
    → limit < 2 ^ 20
    → let ldt = ldt_descriptor address limit g in
      let tss = tss_descriptor address limit g in
      (base ldt ≡ address)
      × (last_offset ldt ≡ limit)
      × (base tss ≡ address)
      × (last_offset tss ≡ limit)
      × (ldt.granularity ≡ 0)
      × (tss.granularity ≡ 0)
      × (ldt.kind ≡ 2)
      × (tss.kind ≡ 9)
      × (ldt.present ≡ 1)
      × (tss.present ≡ 1)
      × (ldt.sys ≡ 0)
      × (tss.sys ≡ 0)
      × (ldt.dpl ≡ 0)
      × (tss.dpl ≡ 0)
      × (access_byte ldt ≡ 0x82)
      × (access_byte tss ≡ 0x89)
unfolding ldt_descriptor tss_descriptor set_params
descriptors_describe address limit g a l = (
  omega arith,
  omega arith,
  omega arith,
  omega arith,
  refl,
  refl,
  refl,
  refl,
  refl,
  refl,
  refl,
  refl,
  refl,
  refl,
  refl,
  refl,
)
