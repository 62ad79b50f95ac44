-- ===== src/Tests/Channels.antt =====
-- The theorems of outputs and time stamps, at a memory behind the register map.
use linux_ptp_driver_package.Tests.Chips.{memory}
use linux_ptp_driver_package.Tests.States.{blank, left_by, still}
use linux_ptp_driver_package.Prelude.{
  ◌/◌, ◌%◌, ◌^◌, ◌<◌, ℕ, ◌≡◌, refl, true, false, [], ◌∷◌, arith, ◌==◌,
}
use linux_ptp_driver_package.Clockmatrix.Sync.Routing.{output_bit, sync_each, sync_outputs_lem}
use linux_ptp_driver_package.Clockmatrix.State.{
  Idtcm, write_u8, idtcm_write, max_tod, schedule_extts, cancel_extts,
}
use linux_ptp_driver_package.Clockmatrix.Extts.{
  idtcm_extts_enable, arm_tod_read_trig_sel_refclk, extts_period_ms,
}
use linux_ptp_driver_package.Clockmatrix.Extts.Mask.{with_request, idtcm_extts_enable_lem}
use linux_ptp_driver_package.Clockmatrix.Sync.{sync_outputs}

sync_outputs_example :
    let bit = output_bit 0xd05 in
    sync_outputs memory true false 1 0 0xd05 8
    ≡ sync_each memory 1 0 (
        (bit 0, bit 1)
        ∷ (bit 2, bit 3)
        ∷ (bit 4, bit 5)
        ∷ (bit 6, bit 7)
        ∷ (0, 0)
        ∷ (bit 9, bit 8)
        ∷ (bit 10, 0)
        ∷ (bit 11, 0)
        ∷ [])
sync_outputs_example = sync_outputs_lem memory true false 1 0xd05

abbrev stamped : Idtcm (ℕ → ℕ)
stamped = left_by (idtcm_extts_enable memory still 1 (record { index = 2; flags = 3 }) true blank)

idtcm_extts_enable_example :
    (2 < max_tod)
    × (stamped.extts_mask < 16)
    × (stamped.extts_mask / 2 ^ 2 % 2 ≡ 1)
    × (true ≡ true
        → (stamped.event_channel 2 ≡ 1)
          × (stamped.requests ≡ with_request true [] (schedule_extts extts_period_ms)))
    × (true ≡ false → stamped.requests ≡ with_request (stamped.extts_mask == 0) [] cancel_extts)
unfolding idtcm_extts_enable arm_tod_read_trig_sel_refclk write_u8 idtcm_write
idtcm_extts_enable_example =
    idtcm_extts_enable_lem memory still 1 (record { index = 2; flags = 3 }) true blank (omega arith)
      refl
