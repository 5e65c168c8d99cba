-- ===== src/Power/Sequence.antt =====
-- lwis_device.c: powering a device up and down by the sequences of its device tree.
use google_lwis.Prelude.{
  ℕ, ◌^◌, Bool, true, false, not, ◌&&◌, ◌||◌, Option, none, some, List, [], ◌∷◌, neg, nonzero, leb,
  ◌==◌, if◌then◌else◌, get_elem?, set,
}
use google_lwis.Kernel.{Kernel, World, kmalloc, ebusy, einval, enodev, enomem}
use google_lwis.Supply.{Name, repeat}
use google_lwis.Supply.Regulator.{
  Regulator, lwis_regulator_enable_by_name, lwis_regulator_disable_by_name,
}
use google_lwis.Supply.Gpio.{
  GpioDescs, GpiosInfo, GotGpios, descs, no_descs, lwis_gpio_list_get, lwis_gpio_list_put,
  lwis_gpio_list_set_output_value, lwis_gpios_get_info_by_name,
}
use google_lwis.Power.{
  SequenceInfo, regulator, gpio, pinctrl, other, PowerApi, Machine, M, ◌>>◌, put_own, usleep_range,
  set_pins,
}
use google_lwis.Power.Up.{activate_mclk}
use google_lwis.Power.Down.{deactivate_mclk}

-- The number is an `int`. What kmalloc leaves in an entry is a parameter.
module _ (k : Kernel) {Hw : Type 0} (uninitialised : SequenceInfo) where
  unfoldable pub lwis_dev_power_seq_list_alloc : World Hw → ℕ → ℕ × List SequenceInfo × World Hw
  lwis_dev_power_seq_list_alloc w count =
      let (list_done, w1) = kmalloc k w in
      let (info_done, w2) = kmalloc k w1 in
      if count == 0 || leb (2 ^ 31) count
      then (neg einval, [], w)
      else if not list_done
      then (neg enomem, [], w1)
      else if not info_done
      then (neg enomem, [], w2)
      else (0, repeat count uninitialised, w2)

abbrev entry : Option (List GpiosInfo) → ℕ → Option GpiosInfo
entry none index = none
entry (some list) index = get_elem? list index

module _ {Hw : Type 0} where
  -- The result of an operation on the regulators by name, where `none` is the use of a NULL name.
  by_name : Machine Hw → Option (ℕ × Hw) → ℕ × Machine Hw
  by_name s none = (neg einval, record s { strayed = true })
  by_name s (some (ret, hw')) = (ret, record s { hw = hw' })

  -- A write to `gpios_info->gpios` of the entry at an index of the list.
  write_gpios : ℕ → GpiosInfo → Option GpioDescs → Machine Hw → Machine Hw
  write_gpios index info gpios s = elim s.own.gpios_list [
    | none ↦ s
    | some list ↦
        put_own s
          (record s.own { gpios_list = some (set list index (record info { gpios = gpios })) })
  ]

-- A step down: whether the delay that follows is skipped, the error or 0, and the machine.
abbrev pub Downward : Type 0 → Type 0
Downward Hw = Bool × ℕ × Machine Hw

abbrev delayed : {Hw : Type 0} → ℕ × Machine Hw → Downward Hw
delayed (ret, s) = (false, ret, s)

module _ {Hw : Type 0} (api : PowerApi Hw) where
  unfoldable pub up_regulator : Name → Option (List Regulator) → M Hw
  unfolding by_name
  up_regulator name none s = (neg einval, s)
  up_regulator name (some list) s =
      by_name s (lwis_regulator_enable_by_name api.regulator s.hw list name)

  -- The pins are stored in the list only once they have been set.
  unfoldable pub up_pins : ℕ → GpiosInfo → GotGpios → M Hw
  unfolding write_gpios
  up_pins index info (no_descs err) s =
      if err == neg ebusy && info.is_shared then (0, write_gpios index info none s) else (err, s)
  up_pins index info (descs gpios) s =
      (do
        (λ s.
            if info.is_pulse
            then (do set_pins api (some gpios) 0; usleep_range api 1000 1500) s
            else (0, s))
        set_pins api (some gpios) 1
        (λ s. (0, write_gpios index info (some gpios) s)))
        s

  unfoldable pub up_gpio : Name → M Hw
  unfolding up_pins
  up_gpio name s = elim (lwis_gpios_get_info_by_name s.own.gpios_list name) [
    | none ↦ (neg einval, s)
    | some index ↦ (elim (entry s.own.gpios_list index) [
      | none ↦ (neg einval, s)
      | some info ↦
          (let (got, hw1) = lwis_gpio_list_get api.gpio s.hw name in
            up_pins index info got (record s { hw = hw1 }))
    ])
  ]

  unfoldable pub up_step : SequenceInfo → M Hw
  unfolding up_regulator up_gpio
  up_step info s = elim info.step_type [
    | regulator ↦ up_regulator info.name s.own.regulators s
    | gpio ↦ up_gpio info.name s
    | pinctrl ↦ activate_mclk api info.name s
    | other ↦ (0, s)
  ]

  -- The loop ends at the first error.
  unfoldable pub up_steps : List SequenceInfo → M Hw
  unfolding up_step
  up_steps [] s = (0, s)
  up_steps (info ∷ rest) s =
      (do up_step info; usleep_range api info.delay_us info.delay_us; up_steps rest) s

  unfoldable pub lwis_dev_power_up_by_seqs : M Hw
  unfolding up_steps
  lwis_dev_power_up_by_seqs s = elim s.own.power_up_sequence [
    | none ↦ (neg einval, s)
    | some [] ↦ (neg einval, s)
    | some (info ∷ rest) ↦ up_steps (info ∷ rest) s
  ]

  unfoldable pub down_regulator : Name → Option (List Regulator) → Machine Hw → Downward Hw
  unfolding by_name
  down_regulator name none s = (true, neg einval, s)
  down_regulator name (some list) s =
      delayed (by_name s (lwis_regulator_disable_by_name api.regulator s.hw list name))

  unfoldable pub down_pins : ℕ → GpiosInfo → Option GpioDescs → Machine Hw → Downward Hw
  unfolding write_gpios
  down_pins index info none s = (true, (if info.is_shared then 0 else neg enodev), s)
  down_pins index info (some gpios) s =
      let (ret, hw1) = lwis_gpio_list_set_output_value api.gpio s.hw (some gpios) 0 in
      (
        false,
        ret,
        write_gpios index info none (record s { hw = lwis_gpio_list_put api.gpio hw1 gpios }),
      )

  unfoldable pub down_gpio : Name → Machine Hw → Downward Hw
  unfolding down_pins
  down_gpio name s = elim (lwis_gpios_get_info_by_name s.own.gpios_list name) [
    | none ↦ (true, neg einval, s)
    | some index ↦ (elim (entry s.own.gpios_list index) [
      | none ↦ (true, neg einval, s)
      | some info ↦ down_pins index info info.gpios s
    ])
  ]

  unfoldable pub down_mclk : Name → Option ℕ → Machine Hw → Downward Hw
  down_mclk name none s = (true, neg enodev, s)
  down_mclk name (some pc) s = delayed (deactivate_mclk api name pc s)

  unfoldable pub down_step : SequenceInfo → Machine Hw → Downward Hw
  unfolding down_regulator down_gpio down_mclk
  down_step info s = elim info.step_type [
    | regulator ↦ down_regulator info.name s.own.regulators s
    | gpio ↦ down_gpio info.name s
    | pinctrl ↦ down_mclk info.name s.own.mclk_ctrl s
    | other ↦ (false, 0, s)
  ]

  -- Every step runs, and the last error is the result.
  unfoldable pub down_steps : ℕ → List SequenceInfo → M Hw
  unfolding down_step
  down_steps last_error [] s = (last_error, s)
  down_steps last_error (info ∷ rest) s =
      let (skipped, ret, s1) = down_step info s in
      let slept =
        (if skipped
          then s1
          else record s1 { hw = api.usleep_range s1.hw info.delay_us info.delay_us }) in
      down_steps (if nonzero ret then ret else last_error) rest slept

  unfoldable pub lwis_dev_power_down_by_seqs : M Hw
  unfolding down_steps
  lwis_dev_power_down_by_seqs s = elim s.own.power_down_sequence [
    | none ↦ (neg einval, s)
    | some [] ↦ (neg einval, s)
    | some (info ∷ rest) ↦ down_steps 0 (info ∷ rest) s
  ]
