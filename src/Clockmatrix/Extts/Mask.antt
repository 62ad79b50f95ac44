-- ===== src/Clockmatrix/Extts/Mask.antt =====
-- Which ToDs have external time stamps on, and when they are polled.
use linux_ptp_driver_package.Clockmatrix.State.{
  Idtcm, max_tod, write_u8, fw_reg, schedule_extts, Request, cancel_extts, request,
}
use linux_ptp_driver_package.Prelude.{
  ◌-◌, ◌/◌, ◌%◌, ◌^◌, ◌<◌, ℕ, bit_and, bit_or, ◌≡◌, refl, Bool, true, false, ◌&&◌, [], ◌∷◌, ◌++◌,
  arith, ltb, ◌==◌, if◌then◌else◌, List, ◌+◌, not, leb,
}
use linux_ptp_driver_package.Prelude.Bits.{checked, checked-entry}
use linux_ptp_driver_package.Bus.Regmap.{Regmap}
use linux_ptp_driver_package.Clockmatrix.Kernel.{Kernel}
use linux_ptp_driver_package.Clockmatrix.Extts.{
  arm_tod_read_trig_sel_refclk, idtcm_extts_enable, ExttsRequest, scsr_tod_read_trig_sel_refclk,
  extts_period_ms, ptp_extts_flags, ptp_enable_feature, ptp_falling_edge, note_armed,
}
use linux_ptp_driver_package.Bus.{ok, >>-ok, M, ◌>>=◌, get, ◌>>◌, put, pure}
use linux_ptp_driver_package.Clockmatrix.Registers.{
  tod_read_secondary_sel_cfg_0, tod_read_secondary_cmd, tod_read_secondary_cmd_v520,
}
use linux_ptp_driver_package.Clockmatrix.Access.{write_u8_keeps}
use linux_ptp_driver_package.Prelude.Int.{low_bits, ltb_ℤ, pos}

mask_table :
    checked 16 (λ m. checked 4 λ n.
      ltb (bit_or m (2 ^ n)) 16
      && (bit_or m (2 ^ n) / 2 ^ n % 2 == 1)
      && ltb (bit_and m (0xFF - 2 ^ n)) 16
      && (bit_and m (0xFF - 2 ^ n) / 2 ^ n % 2 == 0))
    ≡ true
unfolding checked
mask_table = refl

-- Setting and clearing the bit of a ToD keeps the mask within the four ToDs.
mask_bits :
    (m n : ℕ)
    → m < 16
    → n < 4
    → (bit_or m (2 ^ n) < 16)
      × (bit_or m (2 ^ n) / 2 ^ n % 2 ≡ 1)
      × (bit_and m (0xFF - 2 ^ n) < 16)
      × (bit_and m (0xFF - 2 ^ n) / 2 ^ n % 2 ≡ 0)
mask_bits m n hm hn = ground (arith, checked-entry _ 4 (checked-entry _ 16 mask_table m hm) n hn)

-- The requests with one more, or as they were.
abbrev pub with_request : Bool → List Request → Request → List Request
with_request b requests r = if b then requests ++ (r ∷ []) else requests

module _ {Dev : Type 0} (regmap : Regmap Dev) (kernel : Kernel Dev) where
  arm_keeps :
      (i ref : ℕ) (s : Idtcm Dev) {u : Unit {0}} {s' : Idtcm Dev}
      → arm_tod_read_trig_sel_refclk regmap kernel i ref s ≡ ok u s'
      → s' ≡ record s { dev = s'.dev }
  unfolding arm_tod_read_trig_sel_refclk
  arm_keeps i ref s e =
      let (_, t, w, e1) =
        >>-ok (write_u8 regmap (s.channel i).tod_read_secondary tod_read_secondary_sel_cfg_0 ref)
          (write_u8 regmap (s.channel i).tod_read_secondary
            (fw_reg s.fw_ver tod_read_secondary_cmd tod_read_secondary_cmd_v520)
            scsr_tod_read_trig_sel_refclk)
          e in
      ground (arith, write_u8_keeps regmap _ _ ref s w, write_u8_keeps regmap _ _ _ t e1)

  -- A request to switch on that succeeds passed every guard.
  passes :
      (i : ℕ) (rq : ExttsRequest) (s : Idtcm Dev) {u : Unit {0}} {s' : Idtcm Dev}
      → idtcm_extts_enable regmap kernel i rq true s ≡ ok u s'
      → (not (rq.flags / (ptp_extts_flags + 1) == 0) ≡ false)
        × (not (bit_and rq.flags ptp_enable_feature == 0)
              && not (bit_and rq.flags ptp_falling_edge == 0)
            ≡ false)
        × (leb max_tod (rq.index % 256) ≡ false)
        × (ltb_ℤ (kernel.find_pin i (s.channel i).tod) (pos 0) ≡ false)
  unfolding idtcm_extts_enable
  passes i rq s e = ground arith

  -- What follows the arming.
  abbrev armed_rest : ℕ → ℕ → ℕ → Idtcm Dev → M (Idtcm Dev) (Unit {0})
  armed_rest i n ref before = do
    idtcm ← get
    put (note_armed regmap kernel i n ref idtcm)
    if before.extts_mask == 0 then request (schedule_extts extts_period_ms) else pure tt

  -- A request to switch time stamps on or off that succeeds is for one of the four ToDs; it sets or
  -- clears that ToD's bit and keeps the mask within the four; switching on remembers the channel that
  -- asked for it, and asks for polling just if none was on before; switching off the last one asks for
  -- polling to end.
  pub idtcm_extts_enable_lem :
      (i : ℕ) (rq : ExttsRequest) (on : Bool) (s : Idtcm Dev) {u : Unit {0}} {s' : Idtcm Dev}
      → s.extts_mask < 16
      → idtcm_extts_enable regmap kernel i rq on s ≡ ok u s'
      → let n = rq.index % 256 in
        (n < max_tod)
        × (s'.extts_mask < 16)
        × (s'.extts_mask / 2 ^ n % 2 ≡ (if on then 1 else 0))
        × (on ≡ true
            → (s'.event_channel n ≡ i)
              × (s'.requests
                  ≡ with_request (s.extts_mask == 0) s.requests (schedule_extts extts_period_ms)))
        × (on ≡ false → s'.requests ≡ with_request (s'.extts_mask == 0) s.requests cancel_extts)
  unfolding idtcm_extts_enable
  idtcm_extts_enable_lem i rq true s h e =
      let n = rq.index % 256 in
      let ref = kernel.find_pin i (s.channel i).tod in
      let (g1, g2, g3, g4) = passes i rq s e in
      let (_, t, armed, done) =
        >>-ok (arm_tod_read_trig_sel_refclk regmap kernel n (low_bits 8 ref))
          (armed_rest i n (low_bits 8 ref) s) (rw (g1, g2, g3, g4) at e) in
      ground (arith, arm_keeps n (low_bits 8 ref) s armed, done, g3, mask_bits s.extts_mask n h)
  idtcm_extts_enable_lem i rq false s h e =
      ground (arith, mask_bits s.extts_mask (rq.index % 256) h)
