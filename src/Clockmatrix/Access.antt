-- ===== src/Clockmatrix/Access.antt =====
-- What one access to a register means for the state of the ClockMatrix driver.
use linux_ptp_driver_package.Clockmatrix.State.{Idtcm, read_u8, write_u8, idtcm_write}
use linux_ptp_driver_package.Prelude.{◌+◌, ◌%◌, ◌^◌, ℕ, ◌≡◌, List, arith, ◌<◌}
use linux_ptp_driver_package.Bus.Regmap.{Regmap, Register}
use linux_ptp_driver_package.Bus.{ok}

module _ {Dev : Type 0} (regmap : Regmap Dev) where
  -- An access to a register, seen from the driver: what it reads or leaves, and that the driver's
  -- own fields stay.
  pub read_u8_cell :
      (m a : ℕ) (reg : Register regmap ((m + a) % 2 ^ 32)) (s : Idtcm Dev) {v : ℕ} {s' : Idtcm Dev}
      → read_u8 regmap m a s ≡ ok v s'
      → (v ≡ reg.cell s.dev) × (reg.cell s'.dev ≡ reg.cell s.dev) × (s' ≡ record s { dev = s'.dev })
  unfolding read_u8
  read_u8_cell m a reg s e = ground (arith, reg.reads s.dev)

  pub write_u8_cell :
      (m a v : ℕ) (reg : Register regmap ((m + a) % 2 ^ 32)) (s : Idtcm Dev) {u : Unit {0}}
      {s' : Idtcm Dev}
      → v < 256
      → write_u8 regmap m a v s ≡ ok u s'
      → (reg.cell s'.dev ≡ v) × (s' ≡ record s { dev = s'.dev })
  unfolding write_u8
  write_u8_cell m a v reg s h e = ground (arith, reg.writes v s.dev h)

  pub write_keeps :
      (m a : ℕ) (buf : List ℕ) (s : Idtcm Dev) {u : Unit {0}} {s' : Idtcm Dev}
      → idtcm_write regmap m a buf s ≡ ok u s'
      → s' ≡ record s { dev = s'.dev }
  unfolding idtcm_write
  write_keeps m a buf s e = ground arith

  pub read_u8_keeps :
      (m a : ℕ) (s : Idtcm Dev) {v : ℕ} {s' : Idtcm Dev}
      → read_u8 regmap m a s ≡ ok v s'
      → s' ≡ record s { dev = s'.dev }
  unfolding read_u8
  read_u8_keeps m a s e = ground arith

  pub write_u8_keeps :
      (m a v : ℕ) (s : Idtcm Dev) {u : Unit {0}} {s' : Idtcm Dev}
      → write_u8 regmap m a v s ≡ ok u s'
      → s' ≡ record s { dev = s'.dev }
  unfolding write_u8
  write_u8_keeps m a v s e = ground arith
