-- ===== src/Power/Balance/Steps.antt =====
-- What the parts of powering up and down by default do to the pins that the device holds.
use google_lwis.Prelude.{
  ℕ, ◌+◌, ◌-◌, ◌≡◌, refl, ap, ◌∙◌, Bool, true, false, Option, none, some, arith, nonzero, ltb,
  if-cases, ◌==◌, neg, ◌&&◌,
}
use google_lwis.Kernel.{ebusy}
use google_lwis.Supply.{Name, Got, handle, refused}
use google_lwis.Supply.Gpio.{GpioDescs, GotGpios, descs, no_descs, lwis_gpio_list_set_output_value}
use google_lwis.Supply.Pinctrl.{lwis_pinctrl_set_state}
use google_lwis.Power.{PowerApi, Machine, ◌>>◌, on_hw, usleep_range, set_pins, is_shared_by}
use google_lwis.Power.Up.{
  enable_string, shared_enable_string, reset_string, mclk_on_string, got_enable,
  power_up_enable_gpios, settle, got_shared, power_up_shared_enable_gpios, activate_mclk,
  power_up_mclk, got_reset, power_up_reset_gpios,
}
use google_lwis.Power.Down.{
  mclk_off_string, deactivate_mclk, power_down_mclk_of, power_down_mclk, release_pins,
  power_down_reset_gpios, power_down_shared_enable_gpios, power_down_enable_gpios,
}
use google_lwis.Power.Balance.{
  Keeps, IsTracking, Ensures, >>-Ensures, Owns, BeforeReset, BeforeShared, Released, count_of,
  gained,
}
use google_lwis.Power.Balance.Loops.{set_output_keeps, pinctrl_keeps}

module _ {Hw : Type 0} (out : Hw → ℕ) where
  -- A predicate that sees of the hardware only the number of lists given out.
  abbrev pub Sees : (Machine Hw → Type 0) → Type 0
  Sees P = (s : Machine Hw) (hw' : Hw) → out hw' ≡ out s.hw → P s → P (record s { hw = hw' })

  pub Owns-Sees : (base : ℕ) → Sees (Owns out base)
  Owns-Sees base s hw' same o = ground arith

  pub BeforeReset-Sees : (base : ℕ) → Sees (BeforeReset out base)
  BeforeReset-Sees base s hw' same o = (Owns-Sees base s hw' same o.0, o.1)

  pub BeforeShared-Sees : (base : ℕ) → Sees (BeforeShared out base)
  BeforeShared-Sees base s hw' same o = (BeforeReset-Sees base s hw' same o.0, o.1)

module _ {Hw : Type 0} (api : PowerApi Hw) (out : Hw → ℕ) (t : IsTracking api out) where
  module _ (P : Machine Hw → Type 0) (sees : Sees out P) where
    pub on_hw-Ensures : (act : Hw → ℕ × Hw) → Keeps out act → Ensures P (on_hw act) P
    on_hw-Ensures act keeps s p = sees s (act s.hw).1 (keeps s.hw) p

    pub set_pins-Ensures : (o : Option GpioDescs) (value : ℕ) → Ensures P (set_pins api o value) P
    set_pins-Ensures o value s p =
        on_hw-Ensures (λ hw. lwis_gpio_list_set_output_value api.gpio hw o value)
          (set_output_keeps api out t o value) s p

    pub usleep-Ensures : (from to : ℕ) → Ensures P (usleep_range api from to) P
    usleep-Ensures from to s p =
        on_hw-Ensures (λ hw. (0, api.usleep_range hw from to)) (t.slept from to) s p

    pub settle-Ensures : Ensures P (settle api) P
    settle-Ensures s p =
        if-cases (λ (x : ℕ × Machine Hw). P x.1) (ltb 0 s.own.enable_gpios_settle_time)
          (λ h. usleep-Ensures s.own.enable_gpios_settle_time s.own.enable_gpios_settle_time s p)
          (λ h. p)

  module _ (base : ℕ) (s : Machine Hw) where
    with_mclk :
        (pc : Option ℕ) (hw' : Hw)
        → out hw' ≡ out s.hw
        → Owns out base s
        → Owns out base (record s { own = record s.own { mclk_ctrl = pc }; hw = hw' })
    with_mclk pc hw' same o = ground arith

    reset_got :
        (got : GotGpios) (hw1 : Hw)
        → out hw1 ≡ out s.hw + gained got
        → s.own.reset_gpios_present ≡ true
        → BeforeReset out base s
        → Owns out base (got_reset api got (record s { hw = hw1 })).1
    unfolding got_reset
    reset_got (no_descs err) hw1 total present p = Owns-Sees out base s hw1 (omega arith) p.0
    reset_got (descs g) hw1 total present p =
        let start : Machine Hw = record s {
          own = record s.own { reset_gpios = some g };
          hw = hw1;
        } in
        let owns = Owns out base in
        let sees = Owns-Sees out base in
        >>-Ensures owns owns owns (set_pins api (some g) 0)
          (usleep_range api 1000 1500 >> set_pins api (some g) 1)
          (set_pins-Ensures owns sees (some g) 0)
          (>>-Ensures owns owns owns (usleep_range api 1000 1500) (set_pins api (some g) 1)
            (usleep-Ensures owns sees 1000 1500) (set_pins-Ensures owns sees (some g) 1) (λ u o. o))
          (λ u o. o) start (ground arith)

    shared_got :
        (got : GotGpios) (hw1 : Hw)
        → out hw1 ≡ out s.hw + gained got
        → s.own.shared_enable_gpios_present ≡ true
        → BeforeShared out base s
        → BeforeReset out base (got_shared api got (record s { hw = hw1 })).1
    unfolding got_shared
    shared_got (no_descs err) hw1 total present p =
        let kept : BeforeReset out base (record s { hw = hw1 }) =
          BeforeReset-Sees out base s hw1 (omega arith) p.0 in
        if-cases (λ (x : ℕ × Machine Hw). BeforeReset out base x.1) (err == neg ebusy) (λ h. kept)
          (λ h. kept)
    shared_got (descs g) hw1 total present p =
        set_pins-Ensures (BeforeReset out base) (BeforeReset-Sees out base) (some g) 1
          (record s { own = record s.own { shared_enable_gpios = some g }; hw = hw1 })
          (ground arith, p.0.1)

    enable_got :
        (got : GotGpios) (hw1 : Hw)
        → out hw1 ≡ out s.hw + gained got
        → s.own.enable_gpios_present ≡ true
        → Released out base s
        → BeforeShared out base (got_enable api got (record s { hw = hw1 })).1
    unfolding got_enable
    enable_got (no_descs err) hw1 total present p =
        BeforeShared-Sees out base s hw1 (omega arith) p.0
    enable_got (descs g) hw1 total present p =
        let before = BeforeShared out base in
        let sees = BeforeShared-Sees out base in
        >>-Ensures before before before (set_pins api (some g) 1) (settle api)
          (set_pins-Ensures before sees (some g) 1) (settle-Ensures before sees) (λ u o. o)
          (record s { own = record s.own { enable_gpios = some g }; hw = hw1 })
          ((ground arith, p.0.0.1), p.0.1)

    -- The pin control is none of the lists of pins.
    mclk_got :
        (name : Name) (got : Got)
        → (api.pinctrl.devm_pinctrl_get s.hw).0 ≡ got
        → BeforeReset out base s
        → BeforeReset out base (activate_mclk api name s).1
    unfolding activate_mclk
    mclk_got name (refused err) e p =
        rw (activate_mclk, e)
          (with_mclk none (api.pinctrl.devm_pinctrl_get s.hw).1 (t.pinctrl_got s.hw) p.0, p.1)
    mclk_got name (handle pc) e p =
        let before = λ (x : ℕ × Machine Hw). BeforeReset out base x.1 in
        let hw1 = (api.pinctrl.devm_pinctrl_get s.hw).1 in
        let set_state = lwis_pinctrl_set_state api.pinctrl hw1 (some pc) name in
        let was : out set_state.1 ≡ out s.hw =
          pinctrl_keeps api out t pc name hw1 ∙ t.pinctrl_got s.hw in
        rw (activate_mclk, e)
          (if-cases before (ltb 0 s.own.shared_pinctrl && is_shared_by s.own s.others)
            (λ h. (
              with_mclk none (api.pinctrl.devm_pinctrl_put hw1 pc)
                  (t.pinctrl_put pc hw1 ∙ t.pinctrl_got s.hw) p.0,
              p.1,
            ))
            (λ h.
              if-cases before (nonzero set_state.0)
                (λ h. (
                  with_mclk none (api.pinctrl.devm_pinctrl_put set_state.1 pc)
                      (t.pinctrl_put pc set_state.1 ∙ was) p.0,
                  p.1,
                ))
                (λ h. (with_mclk (some pc) set_state.1 was p.0, p.1))))

    deactivate_mclk-Owns :
        (name : Name) (pc : ℕ) → Owns out base s → Owns out base (deactivate_mclk api name pc s).1
    unfolding deactivate_mclk
    deactivate_mclk-Owns name pc o =
        let set_state = lwis_pinctrl_set_state api.pinctrl s.hw (some pc) name in
        if-cases (λ (x : ℕ × Machine Hw). Owns out base x.1)
          (nonzero s.own.shared_pinctrl && is_shared_by s.own s.others) (λ h. ground arith)
          (λ h.
            with_mclk none (api.pinctrl.devm_pinctrl_put set_state.1 pc)
              (t.pinctrl_put pc set_state.1 ∙ pinctrl_keeps api out t pc name s.hw) o)

  module _ (base : ℕ) where
    pub enable-Ensures :
        Ensures (Released out base) (power_up_enable_gpios api) (BeforeShared out base)
    unfolding power_up_enable_gpios
    enable-Ensures s p =
        if-cases (λ (x : ℕ × Machine Hw). BeforeShared out base x.1) s.own.enable_gpios_present
          (λ present.
            enable_got base s (api.gpio.devm_gpiod_get_array s.hw enable_string).0
              (api.gpio.devm_gpiod_get_array s.hw enable_string).1 (t.got s.hw enable_string)
              present p)
          (λ absent. p.0)

    pub shared-Ensures :
        Ensures (BeforeShared out base) (power_up_shared_enable_gpios api) (BeforeReset out base)
    unfolding power_up_shared_enable_gpios
    shared-Ensures s p =
        if-cases (λ (x : ℕ × Machine Hw). BeforeReset out base x.1)
          s.own.shared_enable_gpios_present
          (λ present.
            shared_got base s (api.gpio.devm_gpiod_get_array s.hw shared_enable_string).0
              (api.gpio.devm_gpiod_get_array s.hw shared_enable_string).1
              (t.got s.hw shared_enable_string) present p)
          (λ absent. p.0)

    pub mclk-Ensures : Ensures (BeforeReset out base) (power_up_mclk api) (BeforeReset out base)
    unfolding power_up_mclk
    mclk-Ensures s p =
        if-cases (λ (x : ℕ × Machine Hw). BeforeReset out base x.1) s.own.mclk_present
          (λ present. mclk_got base s mclk_on_string (api.pinctrl.devm_pinctrl_get s.hw).0 refl p)
          (λ absent. p)

    pub reset-Ensures : Ensures (BeforeReset out base) (power_up_reset_gpios api) (Owns out base)
    unfolding power_up_reset_gpios
    reset-Ensures s p =
        if-cases (λ (x : ℕ × Machine Hw). Owns out base x.1) s.own.reset_gpios_present
          (λ present.
            reset_got base s (api.gpio.devm_gpiod_get_array s.hw reset_string).0
              (api.gpio.devm_gpiod_get_array s.hw reset_string).1 (t.got s.hw reset_string) present
              p)
          (λ absent. p.0)

    down_of :
        (o : Option ℕ) (s : Machine Hw)
        → Owns out base s
        → Owns out base (power_down_mclk_of api o s).1
    unfolding power_down_mclk_of
    down_of none s h = h
    down_of (some pc) s h = deactivate_mclk-Owns base s mclk_off_string pc h

    pub down_mclk-Ensures : Ensures (Owns out base) (power_down_mclk api) (Owns out base)
    unfolding power_down_mclk
    down_mclk-Ensures s h = down_of s.own.mclk_ctrl s h

  -- Pins that the device has are put, and are no longer held.
  release :
      (present : Bool) (o : Option GpioDescs) (hw : Hw)
      → (present ≡ false → o ≡ none)
      → ((release_pins api present o hw).1 ≡ none)
        × (out (release_pins api present o hw).2 ≡ out hw - count_of o)
  unfolding release_pins
  release present none hw absent = (refl, omega arith)
  release true (some g) hw absent = (
    refl,
    t.put (lwis_gpio_list_set_output_value api.gpio hw (some g) 0).1 g
        ∙ ap (λ n. n - 1) (set_output_keeps api out t (some g) 0 hw),
  )
  release false (some g) hw absent = cc (absent refl)

  module _ (base : ℕ) where
    pub down_reset-Ensures :
        Ensures (Owns out base) (power_down_reset_gpios api) (BeforeReset out base)
    unfolding power_down_reset_gpios
    down_reset-Ensures s h =
        let done = release s.own.reset_gpios_present s.own.reset_gpios s.hw h.reset_absent in
        (ground arith, done.0)

    pub down_shared-Ensures :
        Ensures (BeforeReset out base) (power_down_shared_enable_gpios api) (BeforeShared out base)
    unfolding power_down_shared_enable_gpios
    down_shared-Ensures s h =
        let done =
          release s.own.shared_enable_gpios_present s.own.shared_enable_gpios s.hw
            h.0.shared_absent in
        let owns = h.0 in ((ground arith, h.1), done.0)

    pub down_enable-Ensures :
        Ensures (BeforeShared out base) (power_down_enable_gpios api) (Released out base)
    unfolding power_down_enable_gpios
    down_enable-Ensures s h =
        let done = release s.own.enable_gpios_present s.own.enable_gpios s.hw h.0.0.enable_absent in
        let owns = h.0.0 in (((ground arith, h.0.1), h.1), done.0)
