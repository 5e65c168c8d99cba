-- ===== src/Power/Locked.antt =====
-- lwis_device.c: powering a device up and down, with the undoing of a power-up that fails.
use google_lwis.Prelude.{Bool, true, false, not, neg, nonzero, if◌then◌else◌}
use google_lwis.Kernel.{einval}
use google_lwis.Supply.Clock.{lwis_clock_enable_all, lwis_clock_disable_all}
use google_lwis.Supply.Phy.{lwis_phy_set_power_all}
use google_lwis.Power.{PowerApi, M, ◌>>◌, ◌also◌, on_hw, where_given, usleep_range}
use google_lwis.Power.Up.{lwis_dev_power_up_by_default}
use google_lwis.Power.Down.{lwis_dev_power_down_by_default}
use google_lwis.Power.Sequence.{lwis_dev_power_up_by_seqs, lwis_dev_power_down_by_seqs}

module _ {Hw : Type 0} (api : PowerApi Hw) where
  unfoldable pub up_clocks : M Hw
  up_clocks s = where_given s.own.clocks (λ list hw. lwis_clock_enable_all api.clock hw list) s

  unfoldable pub up_order : M Hw
  up_order s =
      if s.own.power_up_seqs_present
      then lwis_dev_power_up_by_seqs api s
      else lwis_dev_power_up_by_default api s

  unfoldable pub set_phys : Bool → M Hw
  set_phys power_on s =
      where_given s.own.phys (λ list hw. lwis_phy_set_power_all api.phy hw list power_on) s

  -- Up to the label error_power_up.
  unfoldable pub power_up_parts : M Hw
  unfolding up_clocks up_order set_phys
  power_up_parts = do
    on_hw api.lwis_platform_device_enable
    up_clocks
    up_order
    set_phys true
    where_given api.device_enable (λ enable. enable)
    usleep_range api 2000 2000

  unfoldable pub down_order : M Hw
  down_order s =
      if s.own.power_down_seqs_present
      then lwis_dev_power_down_by_seqs api s
      else lwis_dev_power_down_by_default api s

  unfoldable pub down_clocks : M Hw
  down_clocks s =
      where_given s.own.clocks (λ list hw. (0, lwis_clock_disable_all api.clock hw list)) s

  -- Every part runs, and the last error is the result.
  unfoldable pub lwis_dev_power_down_locked : M Hw
  unfolding set_phys down_order down_clocks
  lwis_dev_power_down_locked =
      where_given api.device_disable (λ disable. disable)
      also set_phys false
      also down_order
      also down_clocks
      also on_hw api.lwis_platform_device_disable

  -- A power-up that fails is undone, and its error is the result.
  unfoldable pub lwis_dev_power_up_locked : M Hw
  unfolding power_up_parts lwis_dev_power_down_locked
  lwis_dev_power_up_locked s =
      let (ret, s1) = power_up_parts s in
      let (undone, s2) = lwis_dev_power_down_locked s1 in
      if not s.own.has_i2c_lock then (neg einval, s) else if nonzero ret then (ret, s2) else (0, s1)
