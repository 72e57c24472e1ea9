-- ===== src/Idt.antt =====
-- The interrupt descriptor table: chapOS/student-distrib/idt.c, with `idt_desc_t` and
-- `SET_IDT_ENTRY` of x86_desc.h. The handlers are addresses; the offsets of the three local
-- descriptors of `init_idt` are what the stack had, and arguments here.
pub mod Entries
pub mod Table
pub mod Exceptions
use chap_os.Common.{
  ℕ, zero, suc, ◌+◌, ◌-◌, ◌/◌, ◌%◌, ◌^◌, Bool, true, false, List, [], ◌∷◌, ltb, ◌==◌, if◌then◌else◌,
}

-- `idt_desc_t`
pub record Gate : Type 0 where
  pub offset_15_00 : ℕ
  pub seg_selector : ℕ
  pub reserved4 : ℕ
  pub reserved3 : ℕ
  pub reserved2 : ℕ
  pub reserved1 : ℕ
  pub size : ℕ
  pub reserved0 : ℕ
  pub dpl : ℕ
  pub present : ℕ
  pub offset_31_16 : ℕ

-- The addresses of the handlers that `init_idt` names.
pub record Handlers : Type 0 where
  pub pit_handler : ℕ
  pub keyboard_handler : ℕ
  pub rtc_handler : ℕ
  pub main_syscall : ℕ
  pub generic_handler : ℕ
  pub exception_de : ℕ
  pub exception_db : ℕ
  pub exception_nmi : ℕ
  pub exception_bp : ℕ
  pub exception_of : ℕ
  pub exception_br : ℕ
  pub exception_ud : ℕ
  pub exception_nm : ℕ
  pub exception_df : ℕ
  pub exception_co : ℕ
  pub exception_ts : ℕ
  pub exception_np : ℕ
  pub exception_ss : ℕ
  pub exception_gp : ℕ
  pub exception_pf : ℕ
  pub exception_mf : ℕ
  pub exception_ac : ℕ
  pub exception_mc : ℕ
  pub exception_xm : ℕ
  pub exception_ve : ℕ
  pub exception_sx : ℕ

abbrev pub Gates : Type 0
Gates = ℕ → Gate

abbrev pub num_vec : ℕ
num_vec = 256

abbrev pub exception_num : ℕ
exception_num = 32

abbrev pub keyboard : ℕ
keyboard = 0x21

abbrev pub rtc : ℕ
rtc = 0x28

abbrev pub pit : ℕ
pit = 0x20

abbrev pub syscall_entry : ℕ
syscall_entry = 0x80

abbrev pub kernel_cs : ℕ
kernel_cs = 0x10

abbrev pub set_gate : ℕ → Gate → Gates → Gates
set_gate v g idt i = if i == v then g else idt i

-- `SET_IDT_ENTRY (idt[v], handler)`
unfoldable pub set_idt_entry : ℕ → ℕ → Gates → Gates
set_idt_entry v handler idt =
    set_gate v
      (record (idt v) { offset_31_16 = handler / 2 ^ 16 % 2 ^ 16; offset_15_00 = handler % 2 ^ 16 })
      idt

-- The fields that `init_idt` gives its local descriptors; the offsets stay.
abbrev pub filled_in : (kind privilege : ℕ) → Gate → Gate
filled_in kind privilege g = record g {
  reserved4 = 0;
  reserved3 = kind;
  reserved2 = 1;
  reserved1 = 1;
  reserved0 = 0;
  size = 1;
  dpl = privilege;
  present = 1;
  seg_selector = kernel_cs;
}

abbrev pub choose_gate : (interrupt syscall exception : Gate) → ℕ → Gate
choose_gate interrupt syscall exception i =
    if ltb i exception_num then exception else if i == syscall_entry then syscall else interrupt

-- The loop over the table, for `left` more entries from `i` on.
unfoldable pub fill_gates : (left : ℕ) → ℕ → (ℕ → Gate) → Gates → Gates
fill_gates zero i g idt = idt
fill_gates (suc left) i g idt = fill_gates left (i + 1) g (set_gate i (g i) idt)

-- A loop of `SET_IDT_ENTRY (idt[i], generic_handler)`.
unfoldable pub set_generic : (left : ℕ) → ℕ → ℕ → Gates → Gates
set_generic zero i handler idt = idt
set_generic (suc left) i handler idt =
    set_generic left (i + 1) handler (set_idt_entry i handler idt)

-- A sequence of `SET_IDT_ENTRY`.
unfoldable pub set_entries : List (ℕ × ℕ) → Gates → Gates
set_entries [] idt = idt
set_entries ((v, handler) ∷ es) idt = set_entries es (set_idt_entry v handler idt)

abbrev pub exceptions : Handlers → List (ℕ × ℕ)
exceptions h =
    (0, h.exception_de)
    ∷ (1, h.exception_db)
    ∷ (2, h.exception_nmi)
    ∷ (3, h.exception_bp)
    ∷ (4, h.exception_of)
    ∷ (5, h.exception_br)
    ∷ (6, h.exception_ud)
    ∷ (7, h.exception_nm)
    ∷ (8, h.exception_df)
    ∷ (9, h.exception_co)
    ∷ (10, h.exception_ts)
    ∷ (11, h.exception_np)
    ∷ (12, h.exception_ss)
    ∷ (13, h.exception_gp)
    ∷ (14, h.exception_pf)
    ∷ (16, h.exception_mf)
    ∷ (17, h.exception_ac)
    ∷ (18, h.exception_mc)
    ∷ (19, h.exception_xm)
    ∷ (20, h.exception_ve)
    ∷ (30, h.exception_sx)
    ∷ []

-- The table, once `lidt` has told the processor where it lies.
unfoldable pub init_idt : Handlers → (interrupt syscall exception : Gate) → Gates → Gates
init_idt h interrupt syscall exception idt =
    let local =
      choose_gate (filled_in 0 0 interrupt) (filled_in 1 3 syscall) (filled_in 1 0 exception) in
    let t1 = fill_gates num_vec 0 local idt in
    let t2 = set_idt_entry keyboard h.keyboard_handler (set_idt_entry pit h.pit_handler t1) in
    let t3 = set_generic (rtc - (keyboard + 1)) (keyboard + 1) h.generic_handler t2 in
    let t4 = set_idt_entry rtc h.rtc_handler t3 in
    let t5 = set_generic (syscall_entry - (rtc + 1)) (rtc + 1) h.generic_handler t4 in
    let t6 = set_idt_entry syscall_entry h.main_syscall t5 in
    let t7 = set_generic (num_vec - (syscall_entry + 1)) (syscall_entry + 1) h.generic_handler t6 in
    set_entries (exceptions h) t7
