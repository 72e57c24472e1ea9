-- ===== src/Rtc/Wait.antt =====
-- `rtc_read` waits for one interrupt of the clock.
use chap_os.Common.{
  ℕ, zero, suc, ◌≡◌, refl, arith, Bool, true, false, List, [], ◌∷◌, ◌++◌, none, some, replicate,
  pos,
}
use chap_os.Rtc.{Rtc, rtc_irq_handler, rtc_spin, rtc_read}

abbrev cleared : Rtc → Rtc
cleared r = record r { interrupt_occurred = 0 }

spin_done : (events : List Bool) (r : Rtc) → r.interrupt_occurred ≡ 1 → rtc_spin events r ≡ some r
unfolding rtc_spin
spin_done [] r e = ground arith
spin_done (b ∷ events) r e = ground arith

spin_until :
    (idle : ℕ) (rest : List Bool) (r : Rtc)
    → r.interrupt_occurred ≡ 0
    → rtc_spin (replicate idle false ++ (true ∷ rest)) r ≡ some (rtc_irq_handler r)
unfolding rtc_spin rtc_irq_handler
spin_until zero rest r e = ground (arith, spin_done rest (rtc_irq_handler r))
spin_until (suc idle) rest r e = ground (arith, spin_until idle rest r)

spin_forever :
    (idle : ℕ) (r : Rtc) → r.interrupt_occurred ≡ 0 → rtc_spin (replicate idle false) r ≡ none
unfolding rtc_spin
spin_forever zero r e = ground arith
spin_forever (suc idle) r e = ground (arith, spin_forever idle r)

-- `rtc_read` drops an interrupt that came before the call, spins for as long as none is taken, and
-- returns 0 right after the first one, leaving the state as its handler does.
pub rtc_read-first_interrupt :
    (idle : ℕ) (rest : List Bool) (r : Rtc)
    → (rtc_read (replicate idle false) r ≡ none)
      × (rtc_read (replicate idle false ++ (true ∷ rest)) r
          ≡ some (pos 0, rtc_irq_handler (record r { interrupt_occurred = 0 })))
unfolding rtc_read
rtc_read-first_interrupt idle rest r = (
  rw (spin_forever idle (cleared r) refl, rtc_read),
  rw (spin_until idle rest (cleared r) refl, rtc_read),
)
