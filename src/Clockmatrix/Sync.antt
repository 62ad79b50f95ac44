-- ===== src/Clockmatrix/Sync.antt =====
-- drivers/ptp/ptp_clockmatrix.c: aligning the outputs of a channel to its pulse per second.
pub mod Routing
use linux_ptp_driver_package.Clockmatrix.State.{Idtcm, read_u8, write_u8}
use linux_ptp_driver_package.Prelude.{
  ◌+◌, ◌-◌, ◌/◌, ℕ, zero, suc, bit_and, bit_or, Bool, ◌&&◌, not, List, [], ◌∷◌, if◌then◌else◌, ltb,
  ◌==◌, leb, get_or,
}
use linux_ptp_driver_package.Bus.Regmap.{Regmap}
use linux_ptp_driver_package.Bus.{M, ◌>>=◌, pure, ◌>>◌, get, throw}
use linux_ptp_driver_package.Bus.Errno.{einval}

-- The sync control registers of the eight PLLs.
abbrev pub sync_ctrl0 : List ℕ
sync_ctrl0 =
    0x2010a740 ∷ 0x2010a742 ∷ 0x2010a744 ∷ 0x2010a746 ∷ 0x2010a748 ∷ 0x2010a74a ∷ 0x2010a74c
    ∷ 0x2010a74e ∷ []

abbrev pub sync_ctrl1 : List ℕ
sync_ctrl1 =
    0x2010a741 ∷ 0x2010a743 ∷ 0x2010a745 ∷ 0x2010a747 ∷ 0x2010a749 ∷ 0x2010a74b ∷ 0x2010a74d
    ∷ 0x2010a74f ∷ []

abbrev pub hw_q8_ctrl_spare : ℕ
hw_q8_ctrl_spare = 0x2010a7d4

abbrev pub hw_q11_ctrl_spare : ℕ
hw_q11_ctrl_spare = 0x2010a7ec

abbrev pub synctrl1_master_sync_rst : ℕ
synctrl1_master_sync_rst = 0x80

-- SYNCTRL1_FBDIV_FRAME_SYNC_TRIG and SYNCTRL1_FBDIV_SYNC_TRIG.
abbrev pub fbdiv_triggers : ℕ
fbdiv_triggers = 0x0c

abbrev pub synctrl1_q1_div_sync_trig : ℕ
synctrl1_q1_div_sync_trig = 0x02

abbrev pub synctrl1_q0_div_sync_trig : ℕ
synctrl1_q0_div_sync_trig = 0x01

-- Q9_TO_Q8_SYNC_TRIG and Q10_TO_Q11_SYNC_TRIG.
abbrev pub spare_sync_trig : ℕ
spare_sync_trig = 0x02

-- Q9_TO_Q8_FANOUT_AND_CLOCK_SYNC_ENABLE_MASK and Q10_TO_Q11_FANOUT_AND_CLOCK_SYNC_ENABLE_MASK.
abbrev pub fanout_mask : ℕ
fanout_mask = 0x05

-- The body of the loop of `idtcm_sync_pps_output` up to the call: `qn`, `qn_plus_1` and what is
-- left of `output_mask`.
unfoldable pub route : Bool → Bool → ℕ → ℕ → ℕ × ℕ × ℕ
route out8_mux out11_mux pll output_mask =
    let bit = bit_and output_mask 0x1 in
    let next = bit_and (output_mask / 2) 0x1 in
    if ltb pll 4
    then (bit, next, output_mask / 2 / 2)
    else if pll == 4
    then if out8_mux then (0, 0, output_mask) else (bit, 0, output_mask / 2)
    else if pll == 5
    then if out8_mux then (next, bit, output_mask / 2 / 2) else (bit, 0, output_mask / 2)
    else if pll == 6
    then if out11_mux then (bit, next, output_mask / 2 / 2) else (bit, 0, output_mask / 2)
    else if pll == 7
    then if out11_mux then (0, 0, output_mask) else (bit, 0, output_mask / 2)
    else (0, 0, output_mask)

module _ {Dev : Type 0} (regmap : Regmap Dev) where
  -- A second output on a spare register: its trigger goes from 0 to 1.
  unfoldable pub toggle_spare : ℕ → M (Idtcm Dev) (Unit {0})
  toggle_spare spare = do
    before ← read_u8 regmap spare 0
    let temp = bit_and before (0xFF - spare_sync_trig)
    write_u8 regmap spare 0 temp
    write_u8 regmap spare 0 (bit_or temp spare_sync_trig)

  unfoldable pub sync_pll_output : ℕ → ℕ → ℕ → ℕ → M (Idtcm Dev) (Unit {0})
  sync_pll_output pll sync_src qn qn_plus_1 =
      if (qn == 0) && (qn_plus_1 == 0) then pure tt else if leb 8 pll then throw einval else (do
        let ctrl0 = get_or sync_ctrl0 pll 0
        let ctrl1 = get_or sync_ctrl1 pll 0
        let triggers =
            bit_or (bit_or fbdiv_triggers (if qn == 0 then 0 else synctrl1_q0_div_sync_trig))
              (if qn_plus_1 == 0 then 0 else synctrl1_q1_div_sync_trig)
        write_u8 regmap ctrl1 0 synctrl1_master_sync_rst
        write_u8 regmap ctrl0 0 sync_src
        write_u8 regmap ctrl1 0 (bit_or synctrl1_master_sync_rst triggers)
        if (pll == 5) && not (qn_plus_1 == 0) then toggle_spare hw_q8_ctrl_spare else pure tt
        if (pll == 6) && not (qn_plus_1 == 0) then toggle_spare hw_q11_ctrl_spare else pure tt
        write_u8 regmap ctrl1 0 triggers)

  -- The loop from `pll` on, with `left` rounds to go.
  unfoldable pub sync_outputs : Bool → Bool → ℕ → ℕ → ℕ → ℕ → M (Idtcm Dev) (Unit {0})
  sync_outputs out8_mux out11_mux sync_src pll output_mask zero = pure tt
  sync_outputs out8_mux out11_mux sync_src pll output_mask (suc left) =
      let (qn, qn_plus_1, rest) = route out8_mux out11_mux pll output_mask in
      let others = sync_outputs out8_mux out11_mux sync_src (pll + 1) rest left in
      (if (qn == 0) && (qn_plus_1 == 0) then pure tt else sync_pll_output pll sync_src qn qn_plus_1)
      >> others

  unfoldable pub idtcm_sync_pps_output : ℕ → M (Idtcm Dev) (Unit {0})
  idtcm_sync_pps_output i = do
    idtcm ← get
    q8 ← read_u8 regmap hw_q8_ctrl_spare 0
    q11 ← read_u8 regmap hw_q11_ctrl_spare 0
    sync_outputs (bit_and q8 fanout_mask == fanout_mask) (bit_and q11 fanout_mask == fanout_mask)
        (idtcm.channel i).sync_src 0 (idtcm.channel i).output_mask 8
