-- ===== src/Mfd/I2c/Paging/Bytes.antt =====
-- The masks and bytes of the page register as arithmetic.
-- Clearing the low byte of a 32-bit address.
use linux_ptp_driver_package.Prelude.{ℕ, ◌<◌, bit_and, ◌^◌, ◌≡◌, ◌/◌, ◌*◌, ◌%◌, ◌+◌, arith, ◌-◌}
use linux_ptp_driver_package.Mfd.I2c.{cm_address_mask, cm_page_mask}
use linux_ptp_driver_package.Prelude.Bits.{and_mask, and_high}

pub page_of_mask : (reg : ℕ) → reg < 2 ^ 32 → bit_and reg cm_page_mask ≡ reg / 256 * 256
page_of_mask reg h = ground (arith, and_high 8 reg (2 ^ 24 - 1), and_mask 24 (reg / 2 ^ 8))

pub offset_of_mask : (reg : ℕ) → bit_and reg cm_address_mask ≡ reg % 256
offset_of_mask reg = and_mask 8 reg

-- The three bytes that are sent rebuild the page.
pub page_of_bytes :
    (reg : ℕ)
    → reg < 2 ^ 32
    → bit_and (reg / 256 * 256 / 2 ^ 8) 0xFF * 2 ^ 8
        + bit_and (reg / 256 * 256 / 2 ^ 16) 0xFF * 2 ^ 16
        + bit_and (reg / 256 * 256 / 2 ^ 24) 0xFF * 2 ^ 24
      ≡ reg / 256 * 256
page_of_bytes reg h = omega (
  arith,
  and_mask 8 (reg / 256 * 256 / 2 ^ 8),
  and_mask 8 (reg / 256 * 256 / 2 ^ 16),
  and_mask 8 (reg / 256 * 256 / 2 ^ 24),
)
