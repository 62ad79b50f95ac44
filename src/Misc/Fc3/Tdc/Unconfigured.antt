-- ===== src/Misc/Fc3/Tdc/Unconfigured.antt =====
-- A FemtoClock3 chip that no firmware image configured: what its driver says of a measurement.
use linux_ptp_driver_package.Prelude.{
  ℕ, zero, suc, bit_and, ◌≡◌, subst, ◌==◌, inl, Bool, true, false, arith, if◌then◌else◌, drop, leb,
  refl,
}
use linux_ptp_driver_package.Bus.Regmap.{Regmap, read_byte, write_byte}
use linux_ptp_driver_package.Misc.Fc3.{
  Fc3, read_reg, read_bytes, on_fc3, read_or_keep, tdc_fifo_sts, tdc_fifo_read_req,
  set_tdc_meas_mode, write_reg, continuous, meas_mode_invalid, tdc_meas2offset,
  time_clock_meas_ctrl, one_shot, time_clock_meas_cnfg, is_vfc3a, read_device_id, device_id,
}
use linux_ptp_driver_package.Bus.{
  M, Outcome, After, After->>=, ok, fail, >>-ok, After-if, >>=-ok, throw, After->>, ◌>>◌,
}
use linux_ptp_driver_package.Misc.Fc3.Tdc.{
  poll_fifo, get_tdc_meas, fifo_empty, check_tdc_fifo_overrun, rsmu_fc3_get_tdc_meas, fifo_full,
  get_tdc_meas_continuous, get_tdc_meas_one_shot,
}
use linux_ptp_driver_package.Prelude.Int.{ℤ, ◌+ℤ◌, pos}
use linux_ptp_driver_package.Misc.Fc3.Firmware.{rsmu_fc3_init, zeroed, load_firmware}
use linux_ptp_driver_package.Bus.Errno.{eopnotsupp}
use linux_ptp_driver_package.Clockmatrix.Setup.{le_number}

module _ {Dev : Type 0} (regmap : Regmap Dev) where
  -- Neither frequency is known.
  abbrev NoFrequency : Fc3 Dev → Type 0
  NoFrequency s = (s.time_ref_freq ≡ 0) × (s.tdc_apll_freq ≡ 0)

  kept :
      {A : Type 0} (m : M Dev A) (s : Fc3 Dev)
      → NoFrequency s
      → After NoFrequency (on_fc3 regmap m s)
  kept {A} m s h = go (m s.dev)
    where
      go : (o : Outcome Dev A) → After NoFrequency (on_fc3 regmap (λ d. o) s)
      go (ok a d) = h
      go (fail e d) = h

  read_or_keep-kept :
      (a val : ℕ) (s : Fc3 Dev) → NoFrequency s → After NoFrequency (read_or_keep regmap a val s)
  unfolding read_reg
  read_or_keep-kept a val s h =
      go (on_fc3 regmap (read_byte regmap a) s) (kept (read_byte regmap a) s h)
    where
      go :
          (o : Outcome (Fc3 Dev) ℕ)
          → After NoFrequency o
          → After NoFrequency
              (elim o as (λ x. Outcome (Fc3 Dev) ℕ) [ ok v t ↦ ok v t | fail e t ↦ ok val t ])
      go (ok v t) h = h
      go (fail e t) h = h

  poll_fifo-kept :
      (polls val : ℕ) (s : Fc3 Dev)
      → NoFrequency s
      → After NoFrequency (poll_fifo regmap polls val s)
  unfolding poll_fifo
  poll_fifo-kept zero val s h =
      After->>= (read_or_keep regmap tdc_fifo_sts val) _ NoFrequency NoFrequency s
        (read_or_keep-kept tdc_fifo_sts val s h) (λ t p. p)
        (λ now t p. After-if NoFrequency (bit_and now fifo_empty == 0) _ _ t p p)
  poll_fifo-kept (suc polls) val s h =
      After->>= (read_or_keep regmap tdc_fifo_sts val) _ NoFrequency NoFrequency s
        (read_or_keep-kept tdc_fifo_sts val s h) (λ t p. p)
        (λ now t p.
          After-if NoFrequency (bit_and now fifo_empty == 0) _ _ t p (poll_fifo-kept polls now t p))

  After-ok :
      {A : Type 0} (o : Outcome (Fc3 Dev) A) {a : A} {t : Fc3 Dev}
      → After NoFrequency o
      → o ≡ ok a t
      → NoFrequency t
  After-ok o {a} {t} p e = subst (After NoFrequency) e p

  -- The divisions by zero.
  no_offset :
      (s : Fc3 Dev) (meas_read : ℕ)
      → NoFrequency s
      → tdc_meas2offset s.time_ref_freq s.tdc_apll_freq meas_read ≡ pos 0
  unfolding tdc_meas2offset ◌+ℤ◌
  no_offset s meas_read (time_ref, tdc_apll) = rw (time_ref, tdc_apll) refl

  get_tdc_meas-zero :
      (polls stale : ℕ) (s : Fc3 Dev) {v : ℤ} {t : Fc3 Dev}
      → NoFrequency s
      → get_tdc_meas regmap polls stale s ≡ ok v t
      → v ≡ pos 0
  unfolding get_tdc_meas read_bytes
  get_tdc_meas-zero polls stale s {v} {t} h e =
      let (u1, s1, polled, more) = >>-ok (poll_fifo regmap polls stale) _ e in
      let (buf, s2, read, rest) =
        >>=-ok (on_fc3 regmap (regmap.bulk_read tdc_fifo_read_req 9)) _ more in
      let h2 =
        After-ok _
          (kept (regmap.bulk_read tdc_fifo_read_req 9) s1
            (After-ok _ (poll_fifo-kept polls stale s h) polled))
          read in
      let zero_offset = no_offset s2 (le_number (drop 1 buf)) h2 in
      ground (arith, rest, zero_offset)

  set_tdc_meas_mode-kept :
      (mode : ℕ) (s : Fc3 Dev) → NoFrequency s → After NoFrequency (set_tdc_meas_mode regmap mode s)
  unfolding set_tdc_meas_mode write_reg
  set_tdc_meas_mode-kept mode s h = After-if NoFrequency (leb meas_mode_invalid mode) _ _ s h (
      After-if NoFrequency (s.meas_mode == mode) _ _ s h (
        After->> (write_reg regmap time_clock_meas_ctrl 0) _ NoFrequency s
          (kept (write_byte regmap time_clock_meas_ctrl 0) s h)
          (λ t p.
            After->> (write_reg regmap time_clock_meas_cnfg mode) _ NoFrequency t
              (kept (write_byte regmap time_clock_meas_cnfg mode) t p)
              (λ u q.
                After-if NoFrequency (mode == one_shot) _ _ (record u { meas_mode = mode }) q
                  (kept (write_byte regmap time_clock_meas_ctrl 0x3) (record u { meas_mode = mode })
                    q)))))

  check_tdc_fifo_overrun-kept :
      (s : Fc3 Dev) → NoFrequency s → After NoFrequency (check_tdc_fifo_overrun regmap s)
  unfolding check_tdc_fifo_overrun read_reg
  check_tdc_fifo_overrun-kept s h =
      After->>= (read_reg regmap tdc_fifo_sts) _ NoFrequency NoFrequency s
        (kept (read_byte regmap tdc_fifo_sts) s h) (λ t p. p)
        (λ val t p.
          After-if NoFrequency (bit_and val fifo_full == 0) _ _ t p
            (set_tdc_meas_mode-kept continuous (record t { meas_mode = meas_mode_invalid }) p))

  -- While neither frequency is known, a measurement that succeeds gives 0, in either mode.
  pub rsmu_fc3_get_tdc_meas-zero :
      (polls stale : ℕ) (is_continuous : Bool) (s : Fc3 Dev) {v : ℤ} {t : Fc3 Dev}
      → NoFrequency s
      → rsmu_fc3_get_tdc_meas regmap polls stale is_continuous s ≡ ok v t
      → v ≡ pos 0
  unfolding rsmu_fc3_get_tdc_meas get_tdc_meas_continuous get_tdc_meas_one_shot write_reg
  rsmu_fc3_get_tdc_meas-zero polls stale is_continuous s {v} {t} h e =
      go (is_vfc3a s.devid) is_continuous e
    where
      measured : Fc3 Dev → Outcome (Fc3 Dev) ℤ
      measured = get_tdc_meas regmap polls stale

      go :
          (a c : Bool)
          → (if a
                then throw eopnotsupp
                else if c
                then (set_tdc_meas_mode regmap continuous
                    >> (check_tdc_fifo_overrun regmap >> measured))
                else (set_tdc_meas_mode regmap one_shot
                    >> (on_fc3 regmap (write_byte regmap time_clock_meas_ctrl 0x3) >> measured)))
              s
            ≡ ok v t
          → v ≡ pos 0
      go true c e = absurd (ground (arith, e))
      go false true e =
          let (u, s1, set, more) = >>-ok (set_tdc_meas_mode regmap continuous) _ e in
          let (u', s2, checked, rest) = >>-ok (check_tdc_fifo_overrun regmap) measured more in
          let h1 = After-ok _ (set_tdc_meas_mode-kept continuous s h) set in
          get_tdc_meas-zero polls stale s2 (After-ok _ (check_tdc_fifo_overrun-kept s1 h1) checked)
            rest
      go false false e =
          let (u, s1, set, more) = >>-ok (set_tdc_meas_mode regmap one_shot) _ e in
          let (u', s2, started, rest) =
            >>-ok (on_fc3 regmap (write_byte regmap time_clock_meas_ctrl 0x3)) measured more in
          let h1 = After-ok _ (set_tdc_meas_mode-kept one_shot s h) set in
          get_tdc_meas-zero polls stale s2
            (After-ok _ (kept (write_byte regmap time_clock_meas_ctrl 0x3) s1 h1) started) rest

  -- After setting up a chip whose firmware image is not there, a measurement that is made next and
  -- succeeds gives an offset of 0, whatever the chip measured, on a processor on which dividing by zero
  -- gives 0.
  pub unconfigured_tdc_zero :
      (c : ℤ) (polls stale : ℕ) (is_continuous : Bool) (d : Dev) {u : Unit {0}} {s : Fc3 Dev}
      {v : ℤ} {t : Fc3 Dev}
      → rsmu_fc3_init regmap (inl c) (zeroed d) ≡ ok u s
      → rsmu_fc3_get_tdc_meas regmap polls stale is_continuous s ≡ ok v t
      → v ≡ pos 0
  unfolding rsmu_fc3_init read_device_id load_firmware read_bytes
  unconfigured_tdc_zero c polls stale is_continuous d {u} {s} {v} {t} init =
      rsmu_fc3_get_tdc_meas-zero polls stale is_continuous s (After-ok _ ready init)
    where
      ready : After NoFrequency (rsmu_fc3_init regmap (inl c) (zeroed d))
      ready =
          After->> (read_device_id regmap) _ NoFrequency (zeroed d)
            (After->>= (on_fc3 regmap (regmap.bulk_read device_id 2)) _ NoFrequency NoFrequency
              (zeroed d) (kept (regmap.bulk_read device_id 2) (zeroed d) (refl, refl)) (λ t p. p)
              (λ buf t p. p))
            (λ t p. p)
