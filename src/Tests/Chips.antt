-- ===== src/Tests/Chips.antt =====
-- A memory behind a register map, and a chip with a window behind I2C and SMBus.
use linux_ptp_driver_package.Prelude.{
  List, ◌∷◌, [], ◌+◌, ◌*◌, ◌%◌, ◌^◌, ℕ, zero, suc, refl, arith, ◌≡◌, length, ◌<◌,
}
use linux_ptp_driver_package.Mfd.Flat.{update}
use linux_ptp_driver_package.Bus.Regmap.{Regmap, Register, Block, AreBytes}
use linux_ptp_driver_package.Mfd.I2c.Paging.{Chip}
use linux_ptp_driver_package.Prelude.Int.{ℤ, pos}
use linux_ptp_driver_package.Mfd.I2c.{I2cClient, Reply}
use linux_ptp_driver_package.Mfd.I2c.Adapter.{Messages, Blocks}
use linux_ptp_driver_package.Bus.{ok}
use linux_ptp_driver_package.Bus.Errno.{eio}

-- `count` cells from `a` on.
unfoldable pub cells_from : ℕ → ℕ → (ℕ → ℕ) → List ℕ
cells_from zero a d = []
cells_from (suc n) a d = d a ∷ cells_from n (a + 1) d

unfoldable pub store_from : List ℕ → ℕ → (ℕ → ℕ) → ℕ → ℕ
store_from [] a d = d
store_from (b ∷ bs) a d = store_from bs (a + 1) (update d a (b % 256))

-- A memory that never fails. It keeps bytes.
abbrev pub memory : Regmap (ℕ → ℕ)
memory = record {
  bulk_read = λ a count d. ok (cells_from count a (λ x. d x % 256)) d;
  bulk_write = λ a buf d. ok tt (store_from buf a d);
}

pub is_byte_of : (v : ℕ) → v % 256 < 256
is_byte_of v = omega arith

pub stored_one : (a v : ℕ) (d : ℕ → ℕ) → v < 256 → store_from (v ∷ []) a d a % 256 ≡ v
unfolding store_from
stored_one a v d h = ground (arith, h)

unfoldable pub memory_register : (a : ℕ) → Register memory a
unfolding cells_from store_from
memory_register a = record {
  cell = λ d. d a % 256;
  is_byte = λ d. is_byte_of (d a);
  reads = λ d. (refl, refl);
  writes = λ v d h. stored_one a v d h;
}

-- Storing from `a` on changes nothing below it.
stored_apart : (bs : List ℕ) (a : ℕ) (d : ℕ → ℕ) (x : ℕ) → x < a → store_from bs a d x ≡ d x
unfolding store_from
stored_apart [] a d x h = refl
stored_apart (b ∷ bs) a d x h =
    rw (stored_apart bs (a + 1) (update d a (b % 256)) x (omega (arith, h))) (ground (arith, h))

stored :
    (bs : List ℕ) (n a : ℕ) (d : ℕ → ℕ)
    → length bs ≡ n
    → AreBytes bs
    → cells_from n a (λ x. store_from bs a d x % 256) ≡ bs
unfolding cells_from store_from
stored [] zero a d h k = refl
stored [] (suc n) a d h k = absurd (omega (arith, h))
stored (b ∷ bs) zero a d h k = absurd (omega (arith, h))
stored (b ∷ bs) (suc n) a d h (hb, k) =
    let d' = update d a (b % 256) in
    let here : store_from bs (a + 1) d' a % 256 ≡ b =
      rw (stored_apart bs (a + 1) d' a (omega arith)) (ground (arith, hb)) in
    rw (here, stored bs n (a + 1) d' (omega (arith, h)) k)

pub memory_bytes : (a n : ℕ) → Block memory a n
memory_bytes a n = record {
  bytes = λ d. cells_from n a (λ x. d x % 256);
  fills = λ bs d h b. stored bs n a d h b;
}

abbrev pub memory_block : (a : ℕ) → Block memory a 6
memory_block a = memory_bytes a 6

-- A chip with a window.
pub record Paged : Type 0 where
  pub window : ℕ
  pub cells : ℕ → ℕ

abbrev pub store_cell : ℕ → ℕ → Paged → Paged
store_cell reg v d = record d { cells = update d.cells (d.window + reg) v }

abbrev pub paged : Chip Paged
paged = record { page = λ d. d.window; cell = λ d. d.cells }

unfoldable pub send : ℤ → ℤ → List ℕ → Paged → Reply Paged
send short long (reg ∷ v ∷ []) d = record { ret = short; buf = []; dev = store_cell reg v d }
send short long (reg ∷ b0 ∷ b1 ∷ b2 ∷ b3 ∷ []) d = record {
  ret = long;
  buf = [];
  dev = record d { window = b1 * 2 ^ 8 + b2 * 2 ^ 16 + b3 * 2 ^ 24 };
}
send short long bytes d = record { ret = eio; buf = []; dev = d }

abbrev pub i2c_chip : I2cClient Paged
i2c_chip = record {
  transfer = λ reg n d. record { ret = pos 2; buf = d.cells (d.window + reg) ∷ []; dev = d };
  master_send = send (pos 2) (pos 5);
  smbus_read_block =
      λ reg n d. record { ret = pos 1; buf = d.cells (d.window + reg) ∷ []; dev = d };
  smbus_write_block = λ reg buf d. send (pos 0) (pos 0) (reg ∷ buf) d;
}

pub i2c_chip-Messages : Messages paged i2c_chip
unfolding send
i2c_chip-Messages = record {
  send_page = λ b0 b1 b2 b3 d h. (refl, refl);
  send_byte = λ reg v d h e. (refl, refl);
  transfer_byte = λ reg d h e. (refl, refl, refl);
}

pub i2c_chip-Blocks : Blocks paged i2c_chip
unfolding send
i2c_chip-Blocks = record {
  write_page = λ b0 b1 b2 b3 d h. (refl, refl);
  write_block = λ reg v d h e. (refl, refl);
  read_block = λ reg d h e. (refl, refl, refl);
}
