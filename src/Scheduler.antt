-- ===== src/Scheduler.antt =====
-- chapOS/student-distrib/scheduler.c: the programmable interval timer. The round-robin scheduler in
-- its interrupt handler is commented out in the source.
use chap_os.Common.{
  ℕ, ◌+◌, ◌*◌, ◌/◌, ◌^◌, ◌<◌, ◌≡◌, ◌≢◌, refl, true, bit-clear, arith, bit_and, List, [], ◌∷◌, some,
  Option, none, ◌==◌, if◌then◌else◌,
}
use chap_os.Pic.{Io, PortWrite, outb, cli, sti, enable_irq, send_eoi}
use chap_os.Pic.Masks.{AreMasks, IsSynced, masked, last_sent}

abbrev pub pit_irq : ℕ
pit_irq = 0

abbrev pub pit_cmd_reg_pt : ℕ
pit_cmd_reg_pt = 0x43

abbrev pub pit_chnl_0 : ℕ
pit_chnl_0 = 0x40

abbrev pub freq_div_pit : ℕ
freq_div_pit = 47727

unfoldable pub pit_init : Io → Io
pit_init io =
    let io1 = outb 0x36 pit_cmd_reg_pt io in
    let io2 = outb (bit_and freq_div_pit 0x00FF) pit_chnl_0 io1 in
    enable_irq pit_irq (outb (freq_div_pit / 2 ^ 8) pit_chnl_0 io2)

unfoldable pub pit_irq_sched_handler : Io → Io
pit_irq_sched_handler io = sti (cli (send_eoi pit_irq io))

-- The count that the timer has been given for channel 0: the last two bytes sent to its port, the
-- low one first.
unfoldable pub counts : List PortWrite → List ℕ
counts [] = []
counts ((v, p) ∷ ws) = let rest = counts ws in if p == pit_chnl_0 then v ∷ rest else rest

abbrev pub count_of : List ℕ → Option ℕ
count_of (high ∷ low ∷ vs) = some (low + 2 ^ 8 * high)
count_of vs = none

-- `pit_init` sends the timer the command for a square wave with both bytes of the count, and a count
-- with which its 1193182 Hz clock interrupts 25 times in a second, that is each 40 ms, to the
-- nearest hertz; it unmasks the timer's interrupt and leaves the mask of every other one as it was.
pit_init-programmed :
    (io : Io) (j : ℕ)
    → AreMasks io
    → j < 16
    → let io' = pit_init io in
      (last_sent pit_cmd_reg_pt io'.writes ≡ some 0x36)
      × (count_of (counts io'.writes) ≡ some freq_div_pit)
      × (1193182 / freq_div_pit ≡ 25)
      × (masked io' 0 ≡ 0)
      × (j ≢ 0 → masked io' j ≡ masked io j)
unfolding pit_init counts last_sent enable_irq
pit_init-programmed io j v lt = (
  refl,
  refl,
  refl,
  ground (arith, bit-clear io.master_mask 0 0),
  λ ne. ground (arith, bit-clear io.master_mask 0 j),
)

-- The timer's interrupt, taken with interrupts on or off, ends with them on and the controllers as
-- they were: the masks are those kept, and those last sent; the last byte sent ends interrupt 0.
pit_irq_sched_handler-ends :
    (io : Io)
    → AreMasks io
    → IsSynced io
    → let io' = pit_irq_sched_handler io in
      IsSynced io'
      × (io'.interrupts ≡ true)
      × (io'.writes ≡ (0x60, 0x20) ∷ io.writes)
      × (io'.master_mask ≡ io.master_mask)
      × (io'.slave_mask ≡ io.slave_mask)
unfolding pit_irq_sched_handler send_eoi last_sent
pit_irq_sched_handler-ends io v s =
    (record { master_sent = s.master_sent; slave_sent = s.slave_sent }, refl, refl, refl, refl)
