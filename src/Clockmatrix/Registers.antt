-- ===== src/Clockmatrix/Registers.antt =====
-- include/linux/mfd/idt8a340_reg.h: the registers of the ClockMatrix chips that the drivers name.
use linux_ptp_driver_package.Prelude.{ℕ, List, [], ◌∷◌}

abbrev pub scsr_base : ℕ
scsr_base = 0x20100000

abbrev pub general_status : ℕ
general_status = 0x2010c014

abbrev pub boot_status : ℕ
boot_status = 0x0000

abbrev pub maj_rel : ℕ
maj_rel = 0x0010

abbrev pub min_rel : ℕ
min_rel = 0x0011

abbrev pub hotfix_rel : ℕ
hotfix_rel = 0x0012

abbrev pub status : ℕ
status = 0x2010c03c

abbrev pub dpll_sys_status : ℕ
dpll_sys_status = 0x0020

abbrev pub dpll_sys_apll_status : ℕ
dpll_sys_apll_status = 0x0021

abbrev pub gpio_user_control : ℕ
gpio_user_control = 0x2010c160

abbrev pub scratch : ℕ
scratch = 0x2010cf50

abbrev pub scratch_v520 : ℕ
scratch_v520 = 0x2010cf4c

abbrev pub reset_ctrl : ℕ
reset_ctrl = 0x2010c000

abbrev pub sm_reset : ℕ
sm_reset = 0x0012

abbrev pub sm_reset_v520 : ℕ
sm_reset_v520 = 0x0013

abbrev pub dpll_wf_timer : ℕ
dpll_wf_timer = 0x002c

abbrev pub dpll_wp_timer : ℕ
dpll_wp_timer = 0x002e

abbrev pub dpll_mode_reg : ℕ
dpll_mode_reg = 0x0037

abbrev pub dpll_mode_v520 : ℕ
dpll_mode_v520 = 0x003B

abbrev pub dpll_max_freq_offset : ℕ
dpll_max_freq_offset = 0x0025

abbrev pub dpll_ctrl_dpll_manu_ref_cfg : ℕ
dpll_ctrl_dpll_manu_ref_cfg = 0x0001

abbrev pub tod_read_primary_cmd : ℕ
tod_read_primary_cmd = 0x000e

abbrev pub tod_read_primary_cmd_v520 : ℕ
tod_read_primary_cmd_v520 = 0x000f

abbrev pub tod_read_secondary_cmd : ℕ
tod_read_secondary_cmd = 0x000e

abbrev pub tod_read_secondary_cmd_v520 : ℕ
tod_read_secondary_cmd_v520 = 0x000f

abbrev pub tod_read_primary_base : ℕ
tod_read_primary_base = 0x0000

abbrev pub tod_read_secondary_base : ℕ
tod_read_secondary_base = 0x0000

abbrev pub tod_read_secondary_sel_cfg_0 : ℕ
tod_read_secondary_sel_cfg_0 = 0x000c

abbrev pub tod_write : ℕ
tod_write = 0x0000

abbrev pub tod_write_cmd : ℕ
tod_write_cmd = 0x000f

abbrev pub tod_cfg : ℕ
tod_cfg = 0x0000

abbrev pub tod_cfg_v520 : ℕ
tod_cfg_v520 = 0x0001

abbrev pub pull_in_offset : ℕ
pull_in_offset = 0x0000

abbrev pub pull_in_slope_limit : ℕ
pull_in_slope_limit = 0x0004

abbrev pub pull_in_ctrl : ℕ
pull_in_ctrl = 0x0007

abbrev pub dpll_wr_phase : ℕ
dpll_wr_phase = 0x0000

abbrev pub dpll_wr_freq : ℕ
dpll_wr_freq = 0x0000

abbrev pub out_ctrl_1 : ℕ
out_ctrl_1 = 0x0009

abbrev pub hw_dpll_tod_ctrl_1 : ℕ
hw_dpll_tod_ctrl_1 = 0x089

abbrev pub hw_dpll_tod_ovr_0 : ℕ
hw_dpll_tod_ovr_0 = 0x098

-- The registers that come once for each PLL, ToD or output, in order.
abbrev pub dpll_freq_n : List ℕ
dpll_freq_n =
    0x2010c838 ∷ 0x2010c840 ∷ 0x2010c848 ∷ 0x2010c850 ∷ 0x2010c858 ∷ 0x2010c860 ∷ 0x2010c868
    ∷ 0x2010c870 ∷ []

abbrev pub hw_dpll : List ℕ
hw_dpll =
    0x20108a00 ∷ 0x20108b00 ∷ 0x20108c00 ∷ 0x20108d00 ∷ 0x20108e00 ∷ 0x20108f00 ∷ 0x20109000
    ∷ 0x20109100 ∷ []

abbrev pub dpll_phase_n : List ℕ
dpll_phase_n =
    0x2010c818 ∷ 0x2010c81c ∷ 0x2010c820 ∷ 0x2010c824 ∷ 0x2010c828 ∷ 0x2010c82c ∷ 0x2010c830
    ∷ 0x2010c834 ∷ []

abbrev pub dpll_ctrl : List ℕ
dpll_ctrl =
    0x2010c600 ∷ 0x2010c63c ∷ 0x2010c680 ∷ 0x2010c6bc ∷ 0x2010c700 ∷ 0x2010c73c ∷ 0x2010c780
    ∷ 0x2010c7bc ∷ []

abbrev pub dpll_phase_pull_in_n : List ℕ
dpll_phase_pull_in_n =
    0x2010c880 ∷ 0x2010c888 ∷ 0x2010c890 ∷ 0x2010c898 ∷ 0x2010c8a0 ∷ 0x2010c8a8 ∷ 0x2010c8b0
    ∷ 0x2010c8b8 ∷ []

abbrev pub dpll : List ℕ
dpll =
    0x2010c3b0 ∷ 0x2010c400 ∷ 0x2010c438 ∷ 0x2010c480 ∷ 0x2010c4b8 ∷ 0x2010c500 ∷ 0x2010c538
    ∷ 0x2010c580 ∷ []

abbrev pub dpll_v520 : List ℕ
dpll_v520 =
    0x2010c3b0 ∷ 0x2010c400 ∷ 0x2010c43c ∷ 0x2010c480 ∷ 0x2010c4bc ∷ 0x2010c500 ∷ 0x2010c53c
    ∷ 0x2010c580 ∷ []

abbrev pub tod_read_primary_n : List ℕ
tod_read_primary_n = 0x2010cc40 ∷ 0x2010cc50 ∷ 0x2010cc60 ∷ 0x2010cc80 ∷ []

abbrev pub tod_read_primary_n_v520 : List ℕ
tod_read_primary_n_v520 = 0x2010cc50 ∷ 0x2010cc60 ∷ 0x2010cc80 ∷ 0x2010cc90 ∷ []

abbrev pub tod_read_secondary_n : List ℕ
tod_read_secondary_n = 0x2010cc90 ∷ 0x2010cca0 ∷ 0x2010ccb0 ∷ 0x2010ccc0 ∷ []

abbrev pub tod_read_secondary_n_v520 : List ℕ
tod_read_secondary_n_v520 = 0x2010cca0 ∷ 0x2010ccb0 ∷ 0x2010ccc0 ∷ 0x2010ccd0 ∷ []

abbrev pub tod_write_n : List ℕ
tod_write_n = 0x2010cc00 ∷ 0x2010cc10 ∷ 0x2010cc20 ∷ 0x2010cc30 ∷ []

abbrev pub tod_write_n_v520 : List ℕ
tod_write_n_v520 = 0x2010cc10 ∷ 0x2010cc20 ∷ 0x2010cc30 ∷ 0x2010cc40 ∷ []

abbrev pub tod : List ℕ
tod = 0x2010cbcc ∷ 0x2010cbce ∷ 0x2010cbd0 ∷ 0x2010cbd2 ∷ []

abbrev pub tod_v520 : List ℕ
tod_v520 = 0x2010cc00 ∷ 0x2010cc02 ∷ 0x2010cc04 ∷ 0x2010cc06 ∷ []

abbrev pub output : List ℕ
output =
    0x2010ca14 ∷ 0x2010ca24 ∷ 0x2010ca34 ∷ 0x2010ca44 ∷ 0x2010ca54 ∷ 0x2010ca64 ∷ 0x2010ca80
    ∷ 0x2010ca90 ∷ 0x2010caa0 ∷ 0x2010cab0 ∷ 0x2010cac0 ∷ 0x2010cad0 ∷ []

abbrev pub output_v520 : List ℕ
output_v520 =
    0x2010ca20 ∷ 0x2010ca30 ∷ 0x2010ca40 ∷ 0x2010ca50 ∷ 0x2010ca60 ∷ 0x2010ca80 ∷ 0x2010ca90
    ∷ 0x2010caa0 ∷ 0x2010cab0 ∷ 0x2010cac0 ∷ 0x2010cad0 ∷ 0x2010cae0 ∷ []
