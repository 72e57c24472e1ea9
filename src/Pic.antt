-- ===== src/Pic.antt =====
-- chapOS/student-distrib/i8259.c, the driver of the two interrupt controllers, with the port
-- macros `outb`, `inb`, `cli`, `sti` of lib.h.
pub mod Masks
use chap_os.Common.{
  ℕ, ◌+◌, ◌-◌, ◌*◌, ◌/◌, ◌%◌, ◌^◌, bit_and, bit_or, Bool, true, false, List, [], ◌∷◌, ltb, leb,
  if◌then◌else◌, single_bit,
}

-- A byte and the port that it goes to.
abbrev pub PortWrite : Type 0
PortWrite = ℕ × ℕ

-- The driver's two masks, the bytes sent to ports, newest first, and the interrupt flag.
pub record Io : Type 0 where
  pub master_mask : ℕ
  pub slave_mask : ℕ
  pub writes : List PortWrite
  pub interrupts : Bool

-- What the devices answer on a port, given the bytes sent before.
abbrev pub Devices : Type 0
Devices = List PortWrite → ℕ → ℕ

abbrev pub outb : ℕ → ℕ → Io → Io
outb v port io = record io { writes = (v % 2 ^ 8, port) ∷ io.writes }

abbrev pub inb : Devices → ℕ → Io → ℕ
inb devices port io = devices io.writes port % 2 ^ 8

abbrev pub cli : Io → Io
cli io = record io { interrupts = false }

abbrev pub sti : Io → Io
sti io = record io { interrupts = true }

abbrev pub initial_io : Io
initial_io = record { master_mask = 0xff; slave_mask = 0xff; writes = []; interrupts = false }

abbrev pub master_8259_port : ℕ
master_8259_port = 0x20

abbrev pub master_8259_port_2 : ℕ
master_8259_port_2 = 0x21

abbrev pub slave_8259_port : ℕ
slave_8259_port = 0xA0

abbrev pub slave_8259_port_2 : ℕ
slave_8259_port_2 = 0xA1

abbrev pub slave_irq : ℕ
slave_irq = 2

abbrev pub eoi : ℕ
eoi = 0x60

-- A new mask, kept and sent to its controller.
abbrev pub set_master : ℕ → Io → Io
set_master mask io = outb mask master_8259_port_2 (record io { master_mask = mask })

abbrev pub set_slave : ℕ → Io → Io
set_slave mask io = outb mask slave_8259_port_2 (record io { slave_mask = mask })

unfoldable pub enable_irq : ℕ → Io → Io
enable_irq irq_num io =
    if ltb 15 irq_num
    then io
    else if leb irq_num 7
    then set_master (bit_and io.master_mask (255 - single_bit irq_num)) io
    else set_slave (bit_and io.slave_mask (255 - single_bit (irq_num - 8))) io

unfoldable pub disable_irq : ℕ → Io → Io
disable_irq irq_num io =
    if ltb 15 irq_num
    then io
    else if leb irq_num 7
    then set_master (bit_or io.master_mask (single_bit irq_num)) io
    else set_slave (bit_or io.slave_mask (single_bit (irq_num - 8))) io

unfoldable pub send_eoi : ℕ → Io → Io
send_eoi irq_num io =
    if ltb 15 irq_num
    then io
    else if leb irq_num 7
    then outb (bit_or irq_num eoi) master_8259_port io
    else outb (eoi + slave_irq) master_8259_port
        (outb (bit_or eoi (irq_num - 8)) slave_8259_port io)

-- ICW1 to ICW4 for both controllers, then IRQ 2, which the second one hangs on.
unfoldable pub i8259_init : Io → Io
i8259_init io =
    let io1 = outb 0x11 slave_8259_port (outb 0x11 master_8259_port io) in
    let io2 = outb 0x28 slave_8259_port_2 (outb 0x20 master_8259_port_2 io1) in
    let io3 = outb 0x02 slave_8259_port_2 (outb 0x04 master_8259_port_2 io2) in
    let io4 = outb 0x01 slave_8259_port_2 (outb 0x01 master_8259_port_2 io3) in
    enable_irq slave_irq io4
