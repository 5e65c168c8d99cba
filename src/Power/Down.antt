-- ===== src/Power/Down.antt =====
-- lwis_device.c: powering a device down in the default order.
use google_lwis.Prelude.{ℕ, Bool, ◌&&◌, Option, none, some, List, [], ◌∷◌, nonzero, if◌then◌else◌}
use google_lwis.Supply.{Name}
use google_lwis.Supply.Regulator.{lwis_regulator_disable_all}
use google_lwis.Supply.Gpio.{GpioDescs, lwis_gpio_list_set_output_value, lwis_gpio_list_put}
use google_lwis.Supply.Pinctrl.{lwis_pinctrl_set_state}
use google_lwis.Power.{PowerDevice, PowerApi, M, ◌also◌, where_given, is_sharing, is_shared_by}

-- MCLK_OFF_STRING.
abbrev pub mclk_off_string : Name
mclk_off_string = b'm' ∷ b'c' ∷ b'l' ∷ b'k' ∷ b'_' ∷ b'o' ∷ b'f' ∷ b'f' ∷ []

-- The first device that shares the pin control becomes its owner.
unfoldable pub give_mclk : PowerDevice → List PowerDevice → List PowerDevice
give_mclk own [] = []
give_mclk own (it ∷ its) =
    if is_sharing own it
    then record it { mclk_ctrl = own.mclk_ctrl } ∷ its
    else it ∷ give_mclk own its

module _ {Hw : Type 0} (api : PowerApi Hw) where
  -- With a pin control that is not NULL.
  unfoldable pub deactivate_mclk : Name → ℕ → M Hw
  unfolding give_mclk
  deactivate_mclk name pc s =
      let idle = record s.own { mclk_ctrl = none } in
      let (ret, hw1) = lwis_pinctrl_set_state api.pinctrl s.hw (some pc) name in
      if nonzero s.own.shared_pinctrl && is_shared_by s.own s.others
      then (0, record s { own = idle; others = give_mclk s.own s.others })
      else (ret, record s { own = idle; hw = api.pinctrl.devm_pinctrl_put hw1 pc })

  unfoldable pub power_down_mclk_of : Option ℕ → M Hw
  power_down_mclk_of none s = (0, s)
  power_down_mclk_of (some pc) s = deactivate_mclk mclk_off_string pc s

  unfoldable pub power_down_mclk : M Hw
  unfolding power_down_mclk_of deactivate_mclk
  power_down_mclk s = power_down_mclk_of s.own.mclk_ctrl s

  -- Pins that are held are set to 0 and released, whatever setting them returns: the result, the
  -- pins held afterwards, and the hardware.
  unfoldable pub release_pins : Bool → Option GpioDescs → Hw → ℕ × Option GpioDescs × Hw
  release_pins present none hw = (0, none, hw)
  release_pins present (some gpios) hw =
      let (ret, hw1) = lwis_gpio_list_set_output_value api.gpio hw (some gpios) 0 in
      if present then (ret, none, lwis_gpio_list_put api.gpio hw1 gpios) else (0, some gpios, hw)

  unfoldable pub power_down_reset_gpios : M Hw
  unfolding release_pins
  power_down_reset_gpios s =
      let (ret, held, hw') = release_pins s.own.reset_gpios_present s.own.reset_gpios s.hw in
      (ret, record s { own = record s.own { reset_gpios = held }; hw = hw' })

  unfoldable pub power_down_shared_enable_gpios : M Hw
  unfolding release_pins
  power_down_shared_enable_gpios s =
      let (ret, held, hw') =
        release_pins s.own.shared_enable_gpios_present s.own.shared_enable_gpios s.hw in
      (ret, record s { own = record s.own { shared_enable_gpios = held }; hw = hw' })

  unfoldable pub power_down_enable_gpios : M Hw
  unfolding release_pins
  power_down_enable_gpios s =
      let (ret, held, hw') = release_pins s.own.enable_gpios_present s.own.enable_gpios s.hw in
      (ret, record s { own = record s.own { enable_gpios = held }; hw = hw' })

  unfoldable pub power_down_regulators : M Hw
  power_down_regulators s =
      where_given s.own.regulators (λ list hw. lwis_regulator_disable_all api.regulator hw list) s

  -- Every part runs, and the last error is the result.
  unfoldable pub lwis_dev_power_down_by_default : M Hw
  unfolding power_down_mclk power_down_reset_gpios power_down_shared_enable_gpios
      power_down_enable_gpios power_down_regulators
  lwis_dev_power_down_by_default =
      power_down_mclk also power_down_reset_gpios also power_down_shared_enable_gpios
      also power_down_enable_gpios also power_down_regulators
