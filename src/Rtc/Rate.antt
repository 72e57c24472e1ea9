-- ===== src/Rtc/Rate.antt =====
-- Which frequencies `rtc_write` accepts, what it tells the clock, and how it leaves the interrupt.
use chap_os.Common.{
  ℕ, ◌+◌, ◌-◌, ◌*◌, ◌/◌, ◌%◌, ◌^◌, ◌≤◌, ◌≡◌, ◌↔◌, refl, ◌==◌, arith, bit_and, bit_or, inl, inr,
  Bool, true, false, not, ◌&&◌, ◌||◌, Option, none, some, leb, ℤ, pos, minus_one, tested, tested_at,
  Bool-cases, ◌≢◌, ◌⊎◌, negsuc, List, [], ◌∷◌, ap, ◌∙◌, if◌then◌else◌,
}
use chap_os.Pic.{Io, PortWrite, Devices, inb, outb, enable_irq, disable_irq}
use chap_os.Pic.Masks.{
  AreMasks, masked, masked-enable_irq, masked-disable_irq, last_sent, last_sent-enable_irq,
  last_sent-disable_irq,
}
use chap_os.Rtc.{
  Rtc, rtc_port, rtc_cmos, rtc_reg_a, rtc_irq, rejected, rate_of, set_rate, rtc_write, rtc_open,
  rtc_close,
}
use chap_os.Rtc.Accepted.{nibbles_lem, accepted_iff_power}

-- What has been written to the clock's two ports, the last write first.
unfoldable pub clock_writes : List PortWrite → List PortWrite
clock_writes [] = []
clock_writes ((v, port) ∷ ws) =
    let rest = clock_writes ws in if port == 0x70 || port == 0x71 then (v, port) ∷ rest else rest

module _ (irq : ℕ) (io : Io) where
  clock_writes-enable_irq : clock_writes (enable_irq irq io).writes ≡ clock_writes io.writes
  unfolding enable_irq clock_writes
  clock_writes-enable_irq = ground arith

  clock_writes-disable_irq : clock_writes (disable_irq irq io).writes ≡ clock_writes io.writes
  unfolding disable_irq clock_writes
  clock_writes-disable_irq = ground arith

-- The writes by which `rtc_write` sets the rate, the last one first: register A is selected to read
-- it, and selected again to write `v` to it.
abbrev pub sets_reg_a : ℕ → List PortWrite → List PortWrite
sets_reg_a v ws = (v, 0x71) ∷ (0x0A, 0x70) ∷ (0x0A, 0x70) ∷ ws

module _ (devices : Devices) where
  -- The byte that the clock answers when register A is read in `rtc_write`.
  abbrev pub old_reg_a : Io → ℕ
  old_reg_a io = inb devices rtc_cmos (outb rtc_reg_a rtc_port io)

  set_rate-sent :
      (rate : ℕ) (io : Io)
      → AreMasks io
      → (last_sent rtc_cmos (set_rate devices rate io).writes
          ≡ some (old_reg_a io / 16 * 16 + rate % 16))
        × (masked (set_rate devices rate io) rtc_irq ≡ 0)
        × (clock_writes (set_rate devices rate io).writes
            ≡ sets_reg_a (old_reg_a io / 16 * 16 + rate % 16) (clock_writes io.writes))
  unfolding set_rate last_sent clock_writes
  set_rate-sent rate io v =
      let x : ℕ = old_reg_a io in
      let sent =
        outb (bit_or (bit_and x 0xF0) (rate % 16)) rtc_cmos
          (outb rtc_reg_a rtc_port (outb rtc_reg_a rtc_port io)) in
      let value : bit_or (bit_and x 0xF0) (rate % 16) % 256 ≡ x / 16 * 16 + rate % 16 =
        ground (arith, nibbles_lem x (rate % 16)) in
      (
        ground (arith, last_sent-enable_irq rtc_cmos rtc_irq sent, nibbles_lem x (rate % 16)),
        (masked-enable_irq rtc_irq rtc_irq sent (record { master = v.master; slave = v.slave })
            (omega arith)).0,
        clock_writes-enable_irq rtc_irq sent
            ∙ ap (λ v. sets_reg_a v (clock_writes io.writes)) value,
      )

abbrev rate_law : ℕ → ℕ → Bool
rate_law uninit k = leb k 0 || (rate_of uninit (2 ^ k) == 16 - k && 32768 / 2 ^ (15 - k) == 2 ^ k)

rate_table : (uninit : ℕ) → tested 11 (rate_law uninit) ≡ true
unfolding tested
rate_table uninit = refl

rate_lem :
    (uninit k : ℕ)
    → 1 ≤ k
    → k ≤ 10
    → (rate_of uninit (2 ^ k) ≡ 16 - k) × (32768 / 2 ^ (15 - k) ≡ 2 ^ k)
rate_lem uninit k lo hi =
    let law : rate_law uninit k ≡ true =
      tested_at 11 (rate_law uninit) k (rate_table uninit) (omega arith) in
    (ground arith, ground arith)

-- The arguments that `rtc_write` has no use for.
abbrev pub Refuses : Option ℕ → ℤ → Type 0
Refuses none nbytes = Unit {0}
Refuses (some w) nbytes = (nbytes ≢ pos 4) ⊎ (rejected w ≡ true)

module _ (devices : Devices) (uninit : ℕ) where
  accepted-returns :
      (w : ℕ) (r : Rtc)
      → rejected w ≡ false
      → rtc_write devices uninit (some w) (pos 4) r
        ≡ (pos 4, record r { io = set_rate devices (rate_of uninit w) (disable_irq rtc_irq r.io) })
  unfolding rtc_write
  accepted-returns w r h = rw h refl

  -- Where the interrupt masks are bytes, for `2 ^ k` with `k` from 1 to 10 and four bytes, `rtc_write` returns 4, unmasks the clock's
  -- interrupt and writes three bytes to the clock's ports: the number of register A to the port that
  -- selects a register, twice, and then to the other port the value that register A gets, its upper
  -- four bits kept and the rate in the lower four for which the clock's frequency, 32768 shifted
  -- right by the rate less one, is `2 ^ k`.
  pub rtc_write-sets_frequency :
      (k : ℕ) (r : Rtc)
      → 1 ≤ k
      → k ≤ 10
      → AreMasks r.io
      → let (result, r') = rtc_write devices uninit (some (2 ^ k)) (pos 4) r in
        let v = old_reg_a devices (disable_irq rtc_irq r.io) / 16 * 16 + (16 - k) in
        (result ≡ pos 4)
        × (last_sent rtc_cmos r'.io.writes ≡ some v)
        × (32768 / 2 ^ (v % 16 - 1) ≡ 2 ^ k)
        × (masked r'.io rtc_irq ≡ 0)
        × (clock_writes r'.io.writes ≡ sets_reg_a v (clock_writes r.io.writes))
  rtc_write-sets_frequency k r lo hi v =
      let io = disable_irq rtc_irq r.io in
      let ok = accepted_iff_power (2 ^ k) in
      let sent =
        set_rate-sent devices (rate_of uninit (2 ^ k)) io
          (masked-disable_irq rtc_irq 0 r.io v (omega arith)).1 in
      let rate : rate_of uninit (2 ^ k) % 16 ≡ 16 - k = omega (arith, rate_lem uninit k lo hi) in
      let low : (old_reg_a devices io / 16 * 16 + (16 - k)) % 16 - 1 ≡ 15 - k = omega arith in
      rw (accepted-returns (2 ^ k) r (ok.1 (k, hi, refl)), ← rate)
        (
          refl,
          sent.0,
          rw (rate, low) ((rate_lem uninit k lo hi).1),
          sent.1,
          rw (sent.2, clock_writes-disable_irq rtc_irq r.io) refl,
        )

  left_masked :
      (r : Rtc)
      → AreMasks r.io
      → (masked (disable_irq rtc_irq r.io) rtc_irq ≡ 1)
        × (last_sent rtc_cmos (disable_irq rtc_irq r.io).writes ≡ last_sent rtc_cmos r.io.writes)
        × (clock_writes (disable_irq rtc_irq r.io).writes ≡ clock_writes r.io.writes)
  left_masked r v = (
    (masked-disable_irq rtc_irq rtc_irq r.io v (omega arith)).0,
    last_sent-disable_irq rtc_cmos rtc_irq r.io (omega arith) (omega arith),
    clock_writes-disable_irq rtc_irq r.io,
  )

  rtc_write-minus_one :
      (freq : Option ℕ) (nbytes : ℤ) (r : Rtc)
      → AreMasks r.io
      → let (result, r') = rtc_write devices uninit freq nbytes r in
        ((result ≡ minus_one) ↔ Refuses freq nbytes)
        × (result ≡ minus_one
            → (masked r'.io rtc_irq ≡ 1)
              × (last_sent rtc_cmos r'.io.writes ≡ last_sent rtc_cmos r.io.writes)
              × (clock_writes r'.io.writes ≡ clock_writes r.io.writes))
  unfolding rtc_write
  rtc_write-minus_one freq (negsuc n) r v = ((λ _. refuses freq, λ _. refl), λ _. left_masked r v)
    where
      refuses : (freq : Option ℕ) → Refuses freq (negsuc n)
      refuses none = tt
      refuses (some w) = inl (λ e. cc)
  rtc_write-minus_one none (pos n) r v = ((λ _. tt, λ _. refl), λ _. left_masked r v)
  rtc_write-minus_one (some w) (pos n) r v = elim (Bool-cases (not (n == 4) || rejected w)) [
    | inl e ↦ rw e ((λ _. ground arith, λ _. refl), λ _. left_masked r v)
    | inr e ↦ rw e ((λ h. cc, λ h. absurd (ground arith)), λ h. cc)
  ]

  -- Where the interrupt masks are bytes, and there is no pointer, the size is not 4 or the frequency is rejected, `rtc_write` returns -1,
  -- has written nothing to either of the clock's ports, and returns with the clock's interrupt masked, although it was not
  -- the caller who masked it.
  pub rtc_write-failure :
      (freq : Option ℕ) (nbytes : ℤ) (r : Rtc)
      → AreMasks r.io
      → Refuses freq nbytes
      → let (result, r') = rtc_write devices uninit freq nbytes r in
        (result ≡ minus_one)
        × (masked r'.io rtc_irq ≡ 1)
        × (last_sent rtc_cmos r'.io.writes ≡ last_sent rtc_cmos r.io.writes)
        × (clock_writes r'.io.writes ≡ clock_writes r.io.writes)
  rtc_write-failure freq nbytes r v refused =
      let (exact, left) = rtc_write-minus_one freq nbytes r v in
      let result = exact.1 refused in (result, (left result).0, (left result).1, (left result).2)

  -- One hertz is accepted although the switch has no rate for it: the low four bits sent are those
  -- of an uninitialised variable.
  pub rtc_write-one_hertz :
      (r : Rtc)
      → AreMasks r.io
      → let (result, r') = rtc_write devices uninit (some 1) (pos 4) r in
        (result ≡ pos 4)
        × (last_sent rtc_cmos r'.io.writes
            ≡ some (old_reg_a devices (disable_irq rtc_irq r.io) / 16 * 16 + uninit % 16))
  rtc_write-one_hertz r v =
      let io = disable_irq rtc_irq r.io in
      let sent =
        set_rate-sent devices (rate_of uninit 1) io
          (masked-disable_irq rtc_irq 0 r.io v (omega arith)).1 in
      rw (accepted-returns 1 r refl) (refl, sent.0)

  -- Opening and closing the clock both return 0 and set it to two hertz, rate 15, with its interrupt
  -- unmasked, whatever rate it had.
  pub rtc_open-rtc_close :
      (r : Rtc)
      → AreMasks r.io
      → let v = old_reg_a devices (disable_irq rtc_irq r.io) / 16 * 16 + 15 in
        (rtc_open devices uninit r ≡ rtc_close devices uninit r)
        × ((rtc_open devices uninit r).0 ≡ pos 0)
        × (last_sent rtc_cmos (rtc_open devices uninit r).1.io.writes ≡ some v)
        × (masked (rtc_open devices uninit r).1.io rtc_irq ≡ 0)
  unfolding rtc_open rtc_close
  rtc_open-rtc_close r v =
      let two = rtc_write-sets_frequency 1 r (omega arith) (omega arith) v in
      (refl, refl, two.1, two.3)
