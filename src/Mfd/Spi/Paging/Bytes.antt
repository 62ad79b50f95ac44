-- ===== src/Mfd/Spi/Paging/Bytes.antt =====
-- The masks and bytes of the page registers as arithmetic.
use linux_ptp_driver_package.Mfd.Spi.{page_mask, addr_mask}
use linux_ptp_driver_package.Prelude.{
  ◌+◌, ◌-◌, ◌*◌, ◌/◌, ◌%◌, ◌^◌, ◌<◌, ℕ, bit_and, bit_or, ◌≡◌, refl, true, arith, ==_iff, ◌==◌,
}
use linux_ptp_driver_package.Prelude.Bits.{and_high, and_mask, checked, checked-entry}

pub page_of_mask : (reg : ℕ) → reg < 2 ^ 32 → bit_and reg page_mask ≡ reg / 128 * 128
page_of_mask reg h = ground (arith, and_high 7 reg (2 ^ 25 - 1), and_mask 25 (reg / 2 ^ 7))

pub offset_of_mask : (reg : ℕ) → bit_and reg addr_mask ≡ reg % 128
offset_of_mask reg = and_mask 7 reg

-- The four bytes that are sent to a ClockMatrix chip rebuild the page.
pub page_of_bytes :
    (page : ℕ)
    → page < 2 ^ 32
    → bit_and page 0xFF
        + bit_and (page / 2 ^ 8) 0xFF * 2 ^ 8
        + bit_and (page / 2 ^ 16) 0xFF * 2 ^ 16
        + bit_and (page / 2 ^ 24) 0xFF * 2 ^ 24
      ≡ page
page_of_bytes page h = omega (
  arith,
  and_mask 8 page,
  and_mask 8 (page / 2 ^ 8),
  and_mask 8 (page / 2 ^ 16),
  and_mask 8 (page / 2 ^ 24),
)

-- The three page bits that are sent to a Sabre chip are the page.
pub page_of_bits :
    (reg : ℕ) → reg < 0x400 → bit_and (reg / 128 * 128 / 2 ^ 7) 0x7 * 128 ≡ reg / 128 * 128
page_of_bits reg h = omega (arith, and_mask 3 (reg / 128 * 128 / 2 ^ 7))

read_command_table : checked 128 (λ x. bit_or x 0x80 == x + 128) ≡ true
unfolding checked
read_command_table = refl

-- The read bit is above the address.
pub read_command : (x : ℕ) → x < 128 → bit_or x 0x80 ≡ x + 128
read_command x h = (==_iff _ (x + 128)).0 (checked-entry _ 128 read_command_table x h)
