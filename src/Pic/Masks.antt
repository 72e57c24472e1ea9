-- ===== src/Pic/Masks.antt =====
-- What the interrupt masks mean after each operation of the driver.
use chap_os.Common.{
  ℕ, ◌-◌, ◌<◌, ◌≡◌, ◌≢◌, arith, Option, none, some, List, [], ◌∷◌, ltb, ◌==◌, if◌then◌else◌,
  single_bit, bit, bit-clear, bit-set, bit_and-lt, bit_or-lt,
}
use chap_os.Pic.{
  Io, PortWrite, master_8259_port_2, slave_8259_port_2, enable_irq, disable_irq, send_eoi,
  i8259_init,
}

pub record AreMasks (io : Io) : Type 0 where
  pub master : io.master_mask < 256
  pub slave : io.slave_mask < 256

-- Bit `irq` of the two masks taken together: 1 keeps the interrupt out.
abbrev pub masked : Io → ℕ → ℕ
masked io irq = if ltb irq 8 then bit io.master_mask irq else bit io.slave_mask (irq - 8)

enable_irq-AreMasks : (irq : ℕ) (io : Io) → AreMasks io → AreMasks (enable_irq irq io)
unfolding enable_irq
enable_irq-AreMasks irq io v = ground (
  arith,
  bit_and-lt io.master_mask (255 - single_bit irq),
  bit_and-lt io.slave_mask (255 - single_bit (irq - 8)),
)

disable_irq-AreMasks : (irq : ℕ) (io : Io) → AreMasks io → AreMasks (disable_irq irq io)
unfolding disable_irq
disable_irq-AreMasks irq io v = ground (
  arith,
  bit_or-lt io.master_mask (single_bit irq),
  bit_or-lt io.slave_mask (single_bit (irq - 8)),
)

-- Enabling an interrupt unmasks it, and leaves the mask of every other one as it was; a number
-- past 15 changes no mask. Both masks stay bytes.
pub masked-enable_irq :
    (irq j : ℕ) (io : Io)
    → AreMasks io
    → j < 16
    → (masked (enable_irq irq io) j ≡ (if j == irq then 0 else masked io j))
      × AreMasks (enable_irq irq io)
unfolding enable_irq
masked-enable_irq irq j io v hj = (
  ground (arith, bit-clear io.master_mask irq j, bit-clear io.slave_mask (irq - 8) (j - 8)),
  enable_irq-AreMasks irq io v,
)

-- Disabling an interrupt masks it, and leaves the mask of every other one as it was; a number
-- past 15 changes no mask. Both masks stay bytes.
pub masked-disable_irq :
    (irq j : ℕ) (io : Io)
    → AreMasks io
    → j < 16
    → (masked (disable_irq irq io) j ≡ (if j == irq then 1 else masked io j))
      × AreMasks (disable_irq irq io)
unfolding disable_irq
masked-disable_irq irq j io v hj = (
  ground (arith, bit-set io.master_mask irq j, bit-set io.slave_mask (irq - 8) (j - 8)),
  disable_irq-AreMasks irq io v,
)

-- The byte that was last sent to `port`.
unfoldable pub last_sent : ℕ → List PortWrite → Option ℕ
last_sent port [] = none
last_sent port ((v, p) ∷ ws) = if p == port then some v else last_sent port ws

-- The masks that the driver keeps are the bytes that the controllers were last sent.
pub record IsSynced (io : Io) : Type 0 where
  pub master_sent : last_sent master_8259_port_2 io.writes ≡ some io.master_mask
  pub slave_sent : last_sent slave_8259_port_2 io.writes ≡ some io.slave_mask

module _ (irq : ℕ) (io : Io) (v : AreMasks io) (s : IsSynced io) where
  enable_irq-IsSynced : IsSynced (enable_irq irq io)
  unfolding enable_irq last_sent
  enable_irq-IsSynced = ground (
    arith,
    bit_and-lt io.master_mask (255 - single_bit irq),
    bit_and-lt io.slave_mask (255 - single_bit (irq - 8)),
  )

  disable_irq-IsSynced : IsSynced (disable_irq irq io)
  unfolding disable_irq last_sent
  disable_irq-IsSynced = ground (
    arith,
    bit_or-lt io.master_mask (single_bit irq),
    bit_or-lt io.slave_mask (single_bit (irq - 8)),
  )

  send_eoi-IsSynced : IsSynced (send_eoi irq io)
  unfolding send_eoi last_sent
  send_eoi-IsSynced = ground arith

-- Each change of a mask reaches the controller that it is for: if the masks kept are those last
-- sent, they still are after enabling, disabling or ending an interrupt of any number.
pub irq_ops-IsSynced :
    (irq : ℕ) (io : Io)
    → AreMasks io
    → IsSynced io
    → IsSynced (enable_irq irq io) × IsSynced (disable_irq irq io) × IsSynced (send_eoi irq io)
irq_ops-IsSynced irq io v s =
    (enable_irq-IsSynced irq io v s, disable_irq-IsSynced irq io v s, send_eoi-IsSynced irq io v s)

-- Whatever was sent before and whatever the two masks are, initialisation ends with the first
-- controller's mask sent, but with the last initialisation word, 1, as the last byte sent to the
-- second one: its mask is not sent.
pub i8259_init_sent :
    (io : Io)
    → AreMasks io
    → let io' = i8259_init io in
      (last_sent master_8259_port_2 io'.writes ≡ some io'.master_mask)
      × (last_sent slave_8259_port_2 io'.writes ≡ some 1)
      × (io'.slave_mask ≡ io.slave_mask)
      × (masked io' 2 ≡ 0)
unfolding i8259_init enable_irq last_sent
i8259_init_sent io v = ground (arith, bit_and-lt io.master_mask 251, bit-clear io.master_mask 2 2)

-- The mask changes go to the two controllers' mask ports alone.
module _ (port irq : ℕ) (io : Io) where
  pub last_sent-enable_irq :
      port ≢ master_8259_port_2
      → port ≢ slave_8259_port_2
      → last_sent port (enable_irq irq io).writes ≡ last_sent port io.writes
  unfolding enable_irq last_sent
  last_sent-enable_irq h k = ground arith

  pub last_sent-disable_irq :
      port ≢ master_8259_port_2
      → port ≢ slave_8259_port_2
      → last_sent port (disable_irq irq io).writes ≡ last_sent port io.writes
  unfolding disable_irq last_sent
  last_sent-disable_irq h k = ground arith
