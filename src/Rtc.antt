-- ===== src/Rtc.antt =====
-- chapOS/student-distrib/rtc.c, the real-time clock's driver. `uninit` stands for the value that an
-- uninitialised variable happens to have; `devices` for what the hardware answers.
pub mod Accepted
pub mod Rate
pub mod Wait
use chap_os.Common.{
  ℕ, zero, suc, ◌+◌, ◌-◌, ◌/◌, ◌%◌, ◌^◌, bit_and, bit_or, Bool, true, false, not, ◌&&◌, ◌||◌, List,
  [], ◌∷◌, Option, none, some, ltb, leb, ◌==◌, if◌then◌else◌, ℤ, pos, negsuc, minus_one,
}
use chap_os.Pic.{Io, Devices, outb, inb, enable_irq, disable_irq, send_eoi}

pub record Rtc : Type 0 where
  pub io : Io
  pub interrupt_occurred : ℕ

abbrev pub rtc_port : ℕ
rtc_port = 0x70

abbrev pub rtc_cmos : ℕ
rtc_cmos = 0x71

abbrev pub rtc_reg_a : ℕ
rtc_reg_a = 0x0A

abbrev pub rtc_reg_b : ℕ
rtc_reg_b = 0x0B

abbrev pub index_reg_c : ℕ
index_reg_c = 0x8C

abbrev pub rtc_irq : ℕ
rtc_irq = 8

abbrev pub on_io : (Io → Io) → Rtc → Rtc
on_io f r = record r { io = f r.io }

-- `frequency`, an `int`, is kept as its 32-bit pattern; a pattern from 2 ^ 31 on is negative.
abbrev pub is_negative_word : ℕ → Bool
is_negative_word w = leb (2 ^ 31) w

-- `(frequency != 0) && ((frequency & (frequency - 1)) == 0)`
abbrev pub is_power_of_two : ℕ → Bool
is_power_of_two w = not (w == 0) && bit_and w ((w + 2 ^ 32 - 1) % 2 ^ 32) == 0

abbrev pub max_freq : ℕ
max_freq = 1024

-- The tests of `rtc_write` that return -1: no power of two, over `MAX_FREQ` or below `MIN_FREQ`.
abbrev pub rejected : ℕ → Bool
rejected w =
    not (is_power_of_two w) || ((not (is_negative_word w) && ltb max_freq w) || is_negative_word w)

-- `switch (frequency)`, which has no case for 1.
abbrev pub rate_of : ℕ → ℕ → ℕ
rate_of uninit w =
    if w == 1024
    then 6
    else if w == 512
    then 7
    else if w == 256
    then 8
    else if w == 128
    then 9
    else if w == 64
    then 10
    else if w == 32
    then 11
    else if w == 16
    then 12
    else if w == 8
    then 13
    else if w == 4
    then 14
    else if w == 2
    then 15
    else uninit

module _ (devices : Devices) where
  unfoldable pub rtc_init : Rtc → Rtc
  rtc_init r =
      let io1 = outb rtc_reg_a rtc_port r.io in
      let prv_a = inb devices rtc_cmos io1 in
      let io2 = outb rtc_reg_b rtc_port io1 in
      let prv_b = inb devices rtc_cmos io2 in
      let io3 = outb (bit_or (bit_and prv_a 0x80) 0x2F) rtc_cmos (outb rtc_reg_a rtc_port io2) in
      let io4 = outb (bit_or prv_b 0x40) rtc_cmos (outb rtc_reg_b rtc_port io3) in
      record r { io = enable_irq rtc_irq io4 }

  -- The end of `rtc_write`, from `rate &= LOW_4_MASK` on.
  unfoldable pub set_rate : ℕ → Io → Io
  set_rate rate io =
      let low = rate % 2 ^ 4 in
      let io1 = outb rtc_reg_a rtc_port io in
      let prev_reg_a = inb devices rtc_cmos io1 in
      let io2 = outb rtc_reg_a rtc_port io1 in
      enable_irq rtc_irq (outb (bit_or (bit_and prev_reg_a 0xF0) low) rtc_cmos io2)

module _ (devices : Devices) (uninit : ℕ) where
  -- `freq` is `none` for a null pointer, and the 32-bit word that it points to otherwise.
  unfoldable pub rtc_write : Option ℕ → ℤ → Rtc → ℤ × Rtc
  rtc_write freq (negsuc n) r = (minus_one, on_io (disable_irq rtc_irq) r)
  rtc_write none (pos nbytes) r = (minus_one, on_io (disable_irq rtc_irq) r)
  rtc_write (some w) (pos nbytes) r =
      let r' = on_io (disable_irq rtc_irq) r in
      if not (nbytes == 4) || rejected w
      then (minus_one, r')
      else (pos nbytes, on_io (set_rate devices (rate_of uninit w)) r')

  unfoldable pub rtc_open : Rtc → ℤ × Rtc
  rtc_open r = (pos 0, (rtc_write (some 2) (pos 4) r).1)

  unfoldable pub rtc_close : Rtc → ℤ × Rtc
  rtc_close r = (pos 0, (rtc_write (some 2) (pos 4) r).1)

-- Register C is read for the side effect on the hardware alone.
unfoldable pub rtc_irq_handler : Rtc → Rtc
rtc_irq_handler r =
    let io1 = outb index_reg_c rtc_port (disable_irq rtc_irq r.io) in
    record { io = enable_irq rtc_irq (send_eoi rtc_irq io1); interrupt_occurred = 1 }

-- `while (rtc_interrupt_occurred == 0);` with one event for each test of the flag that fails: whether
-- the clock's interrupt is taken before the next test. `none` means that it still spins when the
-- events are used up.
pub rtc_spin : List Bool → Rtc → Option Rtc
rtc_spin [] r = if r.interrupt_occurred == 0 then none else some r
rtc_spin (taken ∷ rest) r =
    let next = rtc_spin rest (if taken then rtc_irq_handler r else r) in
    if r.interrupt_occurred == 0 then next else some r

pub rtc_read : List Bool → Rtc → Option (ℤ × Rtc)
rtc_read events r = elim (rtc_spin events (record r { interrupt_occurred = 0 })) [
  | none ↦ none
  | some r' ↦ some (pos 0, r')
]
