-- ===== src/Misc/Cdev/Families.antt =====
-- The operations of the three families: `cm_ops`, `sabre_ops` and `fc3_ops` of drivers/misc.
use linux_ptp_driver_package.Prelude.{ℕ, none, some}
use linux_ptp_driver_package.Bus.Regmap.{Regmap}
use linux_ptp_driver_package.Misc.Cdev.{RsmuOps}
use linux_ptp_driver_package.Misc.Cm.{
  Rsmu, rsmu_cm_set_combomode, rsmu_cm_get_dpll_state, rsmu_cm_get_dpll_ffo,
  rsmu_cm_set_holdover_mode, rsmu_cm_set_output_tdc_go, rsmu_cm_get_clock_index,
  rsmu_cm_set_clock_priorities, rsmu_cm_get_reference_monitor_status,
}
use linux_ptp_driver_package.Misc.Sabre.{
  Sabre, rsmu_sabre_set_combomode, rsmu_sabre_get_dpll_state, rsmu_sabre_get_dpll_ffo,
  rsmu_sabre_set_holdover_mode,
}
use linux_ptp_driver_package.Misc.Fc3.{Fc3}
use linux_ptp_driver_package.Bus.{filling}
use linux_ptp_driver_package.Misc.Fc3.References.{
  rsmu_fc3_get_dpll_state, rsmu_fc3_get_clock_index, rsmu_fc3_set_clock_priorities,
  rsmu_fc3_get_reference_monitor_status,
}
use linux_ptp_driver_package.Misc.Fc3.Tdc.{rsmu_fc3_get_tdc_meas}

module _ {Dev : Type 0} (regmap : Regmap Dev) where
  -- `stale` is the byte of `rsmu_cm_set_output_tdc_go` that a failed read leaves unset.
  abbrev pub cm_ops : ℕ → RsmuOps (Rsmu Dev)
  cm_ops stale = record {
    set_combomode = some (rsmu_cm_set_combomode regmap);
    get_dpll_state = some (λ n. filling (rsmu_cm_get_dpll_state regmap n));
    get_dpll_ffo = some (λ n. filling (rsmu_cm_get_dpll_ffo regmap n));
    set_holdover_mode = some (λ n enable mode. rsmu_cm_set_holdover_mode regmap n enable);
    set_output_tdc_go = some (rsmu_cm_set_output_tdc_go regmap stale);
    get_clock_index = some (λ n. filling (rsmu_cm_get_clock_index regmap n));
    set_clock_priorities = some (rsmu_cm_set_clock_priorities regmap);
    get_reference_monitor_status =
        some (λ n. filling (rsmu_cm_get_reference_monitor_status regmap n));
    get_tdc_meas = none;
  }

  abbrev pub sabre_ops : RsmuOps (Sabre Dev)
  sabre_ops = record {
    set_combomode = some (rsmu_sabre_set_combomode regmap);
    get_dpll_state = some (λ n. filling (rsmu_sabre_get_dpll_state regmap n));
    get_dpll_ffo = some (λ n. filling (rsmu_sabre_get_dpll_ffo regmap n));
    set_holdover_mode = some (rsmu_sabre_set_holdover_mode regmap);
    set_output_tdc_go = none;
    get_clock_index = none;
    set_clock_priorities = none;
    get_reference_monitor_status = none;
    get_tdc_meas = none;
  }

  -- `polls` and `stale` are those of a measurement.
  abbrev pub fc3_ops : ℕ → ℕ → RsmuOps (Fc3 Dev)
  fc3_ops polls stale = record {
    set_combomode = none;
    get_dpll_state = some (λ n. filling (rsmu_fc3_get_dpll_state regmap n));
    get_dpll_ffo = none;
    set_holdover_mode = none;
    set_output_tdc_go = none;
    get_clock_index = some (rsmu_fc3_get_clock_index regmap);
    set_clock_priorities = some (rsmu_fc3_set_clock_priorities regmap);
    get_reference_monitor_status = some (rsmu_fc3_get_reference_monitor_status regmap);
    get_tdc_meas =
        some (λ is_continuous. filling (rsmu_fc3_get_tdc_meas regmap polls stale is_continuous));
  }
