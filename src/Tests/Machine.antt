-- ===== src/Tests/Machine.antt =====
-- The theorems on paging, interrupts, the clock, blocks of memory and texts.
use chap_os.Common.{
  ◌+◌, ◌-◌, ◌*◌, ◌/◌, ◌%◌, ◌^◌, ◌≡◌, refl, arith, inr, true, false, none, some, [], ◌∷◌, ◌++◌,
  replicate, copied, pos, minus_one,
}
use chap_os.Pic.{Io, Devices, initial_io, enable_irq, disable_irq, send_eoi}
use chap_os.Pic.Masks.{AreMasks, IsSynced, masked, last_sent, irq_ops-IsSynced}
use chap_os.Rtc.{Rtc, rtc_write, rtc_read, rtc_irq_handler, rtc_cmos, rtc_irq}
use chap_os.Rtc.Rate.{
  old_reg_a, clock_writes, sets_reg_a, rtc_write-sets_frequency, rtc_write-failure,
}
use chap_os.Rtc.Wait.{rtc_read-first_interrupt}
use chap_os.Paging.{initialize_paging, map_user_img_page}
use chap_os.Paging.Translate.{translate}
use chap_os.Paging.Maps.{IsLaidOut, translate-initialize_paging, translate-map_user_img_page}
use chap_os.Block.{memcpy}
use chap_os.Block.Copy.{memcpy-copied}
use chap_os.Text.{itoa}
use chap_os.Text.Number.{Numeral, itoa-Numeral}
use chap_os.Tests.{image, layout, no_paging}

pub layout-IsLaidOut : IsLaidOut layout
layout-IsLaidOut = record {
  page_table_aligned = refl;
  user_aligned = refl;
  distinct = ground arith;
}

translate-initialize_paging_example :
    translate layout (initialize_paging layout no_paging) 0xB8123
    ≡ some (record { physical = 0xB8123; user = false })
translate-initialize_paging_example =
    translate-initialize_paging layout no_paging 0xB8123 layout-IsLaidOut (omega arith)

translate-map_user_img_page_example :
    let (result, p') = map_user_img_page (pos 1) no_paging in
    (result ≡ pos 0)
    × (p'.stale ≡ false)
    × (translate layout p' 0x8048000 ≡ some (record { physical = 0xC48000; user = true }))
translate-map_user_img_page_example =
    translate-map_user_img_page layout no_paging 1 0x8048000 (omega arith)

both_masked : AreMasks initial_io
both_masked = record { master = omega arith; slave = omega arith }

-- The masks as they are once both controllers have been sent theirs.
abbrev pub synced_io : Io
synced_io = record initial_io { writes = (0xff, 0x21) ∷ (0xff, 0xA1) ∷ [] }

pub synced_io-IsSynced : IsSynced synced_io
unfolding last_sent
synced_io-IsSynced = record { master_sent = refl; slave_sent = refl }

pub synced_io-AreMasks : AreMasks synced_io
synced_io-AreMasks = record { master = omega arith; slave = omega arith }

irq_ops-IsSynced_example :
    IsSynced (enable_irq 8 synced_io)
    × IsSynced (disable_irq 8 synced_io)
    × IsSynced (send_eoi 8 synced_io)
irq_ops-IsSynced_example = irq_ops-IsSynced 8 synced_io synced_io-AreMasks synced_io-IsSynced

abbrev register_a : Devices
register_a writes port = 0x26

abbrev clock : Rtc
clock = record { io = initial_io; interrupt_occurred = 0 }

rtc_write-sets_frequency_example :
    let (result, r') = rtc_write register_a 0 (some 32) (pos 4) clock in
    let v = old_reg_a register_a (disable_irq rtc_irq clock.io) / 16 * 16 + 11 in
    (result ≡ pos 4)
    × (last_sent rtc_cmos r'.io.writes ≡ some v)
    × (32768 / 2 ^ (v % 16 - 1) ≡ 32)
    × (masked r'.io rtc_irq ≡ 0)
    × (clock_writes r'.io.writes ≡ sets_reg_a v (clock_writes clock.io.writes))
rtc_write-sets_frequency_example =
    rtc_write-sets_frequency register_a 0 5 clock (omega arith) (omega arith) both_masked

rtc_write-failure_example :
    let (result, r') = rtc_write register_a 0 (some 3) (pos 4) clock in
    (result ≡ minus_one)
    × (masked r'.io rtc_irq ≡ 1)
    × (last_sent rtc_cmos r'.io.writes ≡ last_sent rtc_cmos clock.io.writes)
    × (clock_writes r'.io.writes ≡ clock_writes clock.io.writes)
rtc_write-failure_example =
    rtc_write-failure register_a 0 (some 3) (pos 4) clock both_masked (inr refl)

rtc_read-first_interrupt_example :
    (rtc_read (replicate 3 false) clock ≡ none)
    × (rtc_read (replicate 3 false ++ (true ∷ [])) clock ≡ some (pos 0, rtc_irq_handler clock))
rtc_read-first_interrupt_example = rtc_read-first_interrupt 3 [] clock

memcpy-copied_example : memcpy image 1001 300 7 ≡ copied image 1001 300 7
memcpy-copied_example = memcpy-copied image 1001 300 7 (inr (omega arith))

itoa-Numeral_example : Numeral image 1000 65536 10 (itoa image 65536 1000 10)
itoa-Numeral_example = itoa-Numeral image 65536 1000 10 (omega arith) (omega arith) (omega arith)
