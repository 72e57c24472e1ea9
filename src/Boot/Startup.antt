-- ===== src/Boot/Startup.antt =====
-- Which interrupts the start-up lets through.
use chap_os.Common.{
  ℕ, ◌<◌, ◌≡◌, refl, ◌-◌, ◌==◌, ◌||◌, ==_iff, tested, tested_at, bit, ltb, Bool, if◌then◌else◌,
  true,
}
use chap_os.Pic.{Devices, Io, i8259_init, enable_irq}
use chap_os.Pic.Masks.{IsSynced, masked, last_sent}
use chap_os.Rtc.{rtc_init}
use chap_os.Scheduler.{pit_init}
use chap_os.Keyboard.{open_keyboard}
use chap_os.Process.{Kernel}
use chap_os.Boot.{init_devices}

-- The lines of the timer, the keyboard, the second controller and the clock.
abbrev pub open_line : ℕ → Bool
open_line j = j == 0 || j == 1 || j == 2 || j == 8

as_expected : ℕ → Bool
as_expected j = (if ltb j 8 then bit 248 j else bit 254 (j - 8)) == (if open_line j then 0 else 1)

open_lines : tested 16 as_expected ≡ true
unfolding tested as_expected
open_lines = refl

-- From controllers that mask every line, setting up the devices leaves exactly the lines of the timer,
-- the keyboard, the second controller and the clock open, and both controllers have been sent the
-- masks that are kept; the line buffer is empty.
pub init_devices-open_lines :
    (devices : Devices) (k : Kernel) (j : ℕ)
    → k.console.display.io.master_mask ≡ 0xff
    → k.console.display.io.slave_mask ≡ 0xff
    → j < 16
    → let k' = init_devices devices k in
      let io' = k'.console.display.io in
      (masked io' j ≡ (if open_line j then 0 else 1)) × IsSynced io' × (k'.console.buffer_index ≡ 0)
unfolding init_devices i8259_init rtc_init pit_init open_keyboard enable_irq last_sent as_expected
init_devices-open_lines devices k j master slave lt =
    let io' : Io = (init_devices devices k).console.display.io in
    let m : io'.master_mask ≡ 248 = rw master refl in
    let s : io'.slave_mask ≡ 254 = rw slave refl in
    let expected : as_expected j ≡ true = tested_at 16 as_expected j open_lines lt in
    (
      rw (m, s) ((==_iff _ _).0 expected),
      record { master_sent = rw master refl; slave_sent = rw slave refl },
      refl,
    )
