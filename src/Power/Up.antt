-- ===== src/Power/Up.antt =====
-- lwis_device.c: powering a device up in the default order.
use google_lwis.Prelude.{◌&&◌, none, some, [], ◌∷◌, neg, nonzero, ltb, ◌==◌, if◌then◌else◌}
use google_lwis.Kernel.{ebusy}
use google_lwis.Supply.{Name, handle, refused}
use google_lwis.Supply.Regulator.{lwis_regulator_enable_all}
use google_lwis.Supply.Gpio.{GpioDescs, GotGpios, descs, no_descs, lwis_gpio_list_get}
use google_lwis.Supply.Pinctrl.{lwis_pinctrl_set_state}
use google_lwis.Power.{
  PowerApi, M, ◌>>◌, where_given, put_own, usleep_range, set_pins, is_shared_by,
}

-- "enable", "shared-enable", "reset" and MCLK_ON_STRING.
abbrev pub enable_string : Name
enable_string = b'e' ∷ b'n' ∷ b'a' ∷ b'b' ∷ b'l' ∷ b'e' ∷ []

abbrev pub shared_enable_string : Name
shared_enable_string =
    b's' ∷ b'h' ∷ b'a' ∷ b'r' ∷ b'e' ∷ b'd' ∷ b'-' ∷ b'e' ∷ b'n' ∷ b'a' ∷ b'b' ∷ b'l' ∷ b'e' ∷ []

abbrev pub reset_string : Name
reset_string = b'r' ∷ b'e' ∷ b's' ∷ b'e' ∷ b't' ∷ []

abbrev pub mclk_on_string : Name
mclk_on_string = b'm' ∷ b'c' ∷ b'l' ∷ b'k' ∷ b'_' ∷ b'o' ∷ b'n' ∷ []

module _ {Hw : Type 0} (api : PowerApi Hw) where
  abbrev pub settle : M Hw
  settle s =
      if ltb 0 s.own.enable_gpios_settle_time
      then usleep_range api s.own.enable_gpios_settle_time s.own.enable_gpios_settle_time s
      else (0, s)

  -- The pins that were requested are stored in the device before they are set.
  abbrev assert_enable : GpioDescs → M Hw
  assert_enable gpios s =
      (do set_pins api (some gpios) 1; settle)
        (put_own s (record s.own { enable_gpios = some gpios }))

  unfoldable pub got_enable : GotGpios → M Hw
  got_enable (no_descs err) s = (err, s)
  got_enable (descs gpios) s = assert_enable gpios s

  unfoldable pub power_up_enable_gpios : M Hw
  unfolding got_enable
  power_up_enable_gpios s =
      let (got, hw1) = lwis_gpio_list_get api.gpio s.hw enable_string in
      if s.own.enable_gpios_present then got_enable got (record s { hw = hw1 }) else (0, s)

  unfoldable pub got_shared : GotGpios → M Hw
  got_shared (no_descs err) s = if err == neg ebusy then (0, s) else (err, s)
  got_shared (descs gpios) s =
      set_pins api (some gpios) 1 (put_own s (record s.own { shared_enable_gpios = some gpios }))

  unfoldable pub power_up_shared_enable_gpios : M Hw
  unfolding got_shared
  power_up_shared_enable_gpios s =
      let (got, hw1) = lwis_gpio_list_get api.gpio s.hw shared_enable_string in
      if s.own.shared_enable_gpios_present then got_shared got (record s { hw = hw1 }) else (0, s)

  -- The clock is left alone where another device has it on. The handle is stored only on success.
  unfoldable pub activate_mclk : Name → M Hw
  activate_mclk name s =
      let (got, hw1) = api.pinctrl.devm_pinctrl_get s.hw in
      let idle = record s.own { mclk_ctrl = none } in
      elim got [
        | refused err ↦ (err, record s { own = idle; hw = hw1 })
        | handle pc ↦
            (let (ret, hw2) = lwis_pinctrl_set_state api.pinctrl hw1 (some pc) name in
              if ltb 0 s.own.shared_pinctrl && is_shared_by s.own s.others
              then (0, record s { own = idle; hw = api.pinctrl.devm_pinctrl_put hw1 pc })
              else if nonzero ret
              then (ret, record s { own = idle; hw = api.pinctrl.devm_pinctrl_put hw2 pc })
              else (0, record s { own = record s.own { mclk_ctrl = some pc }; hw = hw2 }))
      ]

  unfoldable pub power_up_mclk : M Hw
  unfolding activate_mclk
  power_up_mclk s = if s.own.mclk_present then activate_mclk mclk_on_string s else (0, s)

  abbrev pulse_reset : GpioDescs → M Hw
  pulse_reset gpios s =
      (do set_pins api (some gpios) 0; usleep_range api 1000 1500; set_pins api (some gpios) 1)
        (put_own s (record s.own { reset_gpios = some gpios }))

  unfoldable pub got_reset : GotGpios → M Hw
  got_reset (no_descs err) s = (err, s)
  got_reset (descs gpios) s = pulse_reset gpios s

  unfoldable pub power_up_reset_gpios : M Hw
  unfolding got_reset
  power_up_reset_gpios s =
      let (got, hw1) = lwis_gpio_list_get api.gpio s.hw reset_string in
      if s.own.reset_gpios_present then got_reset got (record s { hw = hw1 }) else (0, s)

  unfoldable pub power_up_regulators : M Hw
  power_up_regulators s =
      where_given s.own.regulators (λ list hw. lwis_regulator_enable_all api.regulator hw list) s

  unfoldable pub lwis_dev_power_up_by_default : M Hw
  unfolding power_up_regulators power_up_enable_gpios power_up_shared_enable_gpios power_up_mclk
      power_up_reset_gpios
  lwis_dev_power_up_by_default = do
    power_up_regulators
    power_up_enable_gpios
    power_up_shared_enable_gpios
    power_up_mclk
    power_up_reset_gpios
