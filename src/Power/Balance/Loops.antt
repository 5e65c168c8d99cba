-- ===== src/Power/Balance/Loops.antt =====
-- The loops over clocks, regulators, PHYs and pins get and put no pins.
use google_lwis.Prelude.{
  ℕ, zero, suc, ◌+◌, ◌≡◌, refl, ◌∙◌, Bool, Option, none, some, List, [], ◌∷◌, arith, get_elem?,
  Option-cases, inl, inr,
}
use google_lwis.Supply.{Name, Got, handle, refused}
use google_lwis.Supply.Clock.{Clock, lwis_clock_enable_by_idx, enable_from, lwis_clock_disable_all}
use google_lwis.Supply.Regulator.{
  Regulator, enable, lwis_regulator_enable_all, lwis_regulator_disable_all,
}
use google_lwis.Supply.Gpio.{GpioDescs, for_each_pin, lwis_gpio_list_set_output_value}
use google_lwis.Supply.Phy.{Phy, lwis_phy_set_power_by_idx, set_power_from}
use google_lwis.Supply.Pinctrl.{lwis_pinctrl_set_state}
use google_lwis.Power.{PowerApi}
use google_lwis.Power.Balance.{Keeps, IsTracking}

module _ {Hw : Type 0} (api : PowerApi Hw) (out : Hw → ℕ) (t : IsTracking api out) where
  each_pin_keeps :
      (g : GpioDescs) (value i n : ℕ)
      → Keeps out (λ hw. for_each_pin (λ hw i. api.gpio.gpiod_direction_output hw g i value) hw i n)
  unfolding for_each_pin
  each_pin_keeps g value i zero hw = refl
  each_pin_keeps g value i (suc n) hw = ground (
    arith,
    t.output g i value hw,
    each_pin_keeps g value (i + 1) n (api.gpio.gpiod_direction_output hw g i value).1,
  )

  pub set_output_keeps :
      (o : Option GpioDescs) (value : ℕ)
      → Keeps out (λ hw. lwis_gpio_list_set_output_value api.gpio hw o value)
  unfolding lwis_gpio_list_set_output_value
  set_output_keeps none value hw = refl
  set_output_keeps (some g) value hw = each_pin_keeps g value 0 g.ndescs hw

  clock_keeps :
      (list : List Clock) (i : ℕ) → Keeps out (λ hw. lwis_clock_enable_by_idx api.clock hw list i)
  unfolding lwis_clock_enable_by_idx
  clock_keeps list i hw = elim (Option-cases (get_elem? list i)) [
    | inl outside ↦ ground arith
    | inr (c, there) ↦ ground (
      arith,
      t.clk_enable c.clk hw,
      t.clk_rate c.clk c.rate (api.clock.clk_prepare_enable hw c.clk).1,
    )
  ]

  pub clocks_keep :
      (list : List Clock) (i : ℕ) (rest : List Clock)
      → Keeps out (λ hw. enable_from api.clock hw list i rest)
  unfolding enable_from
  clocks_keep list i [] hw = refl
  clocks_keep list i (c ∷ rest) hw = ground (
    arith,
    clock_keeps list i hw,
    clocks_keep list (i + 1) rest (lwis_clock_enable_by_idx api.clock hw list i).1,
  )

  pub clocks_off_keep :
      (list : List Clock) → Keeps out (λ hw. (0, lwis_clock_disable_all api.clock hw list))
  unfolding lwis_clock_disable_all
  clocks_off_keep [] hw = refl
  clocks_off_keep (c ∷ cs) hw =
      clocks_off_keep cs (api.clock.clk_disable_unprepare hw c.clk) ∙ t.clk_disable c.clk hw

  regulator_keeps : (r : Regulator) → Keeps out (λ hw. enable api.regulator hw r)
  unfolding enable
  regulator_keeps r hw = ground (
    arith,
    t.voltage r.reg r.voltage hw,
    t.reg_enable r.reg hw,
    t.reg_enable r.reg (api.regulator.regulator_set_voltage hw r.reg r.voltage).1,
  )

  pub regulators_keep :
      (list : List Regulator) → Keeps out (λ hw. lwis_regulator_enable_all api.regulator hw list)
  unfolding lwis_regulator_enable_all
  regulators_keep [] hw = refl
  regulators_keep (r ∷ rs) hw =
      ground (arith, regulator_keeps r hw, regulators_keep rs (enable api.regulator hw r).1)

  pub regulators_off_keep :
      (list : List Regulator) → Keeps out (λ hw. lwis_regulator_disable_all api.regulator hw list)
  unfolding lwis_regulator_disable_all
  regulators_off_keep [] hw = refl
  regulators_off_keep (r ∷ rs) hw = ground (
    arith,
    t.reg_disable r.reg hw,
    regulators_off_keep rs (api.regulator.regulator_disable hw r.reg).1,
  )

  phy_keeps :
      (list : List Phy) (i : ℕ) (power_on : Bool)
      → Keeps out (λ hw. lwis_phy_set_power_by_idx api.phy hw list i power_on)
  unfolding lwis_phy_set_power_by_idx
  phy_keeps list i power_on hw = elim (Option-cases (get_elem? list i)) [
    | inl outside ↦ ground arith
    | inr (p, there) ↦ ground (arith, t.phy_on p.phy hw, t.phy_off p.phy hw)
  ]

  pub phys_keep :
      (list : List Phy) (power_on : Bool) (i : ℕ) (rest : List Phy)
      → Keeps out (λ hw. set_power_from api.phy hw list power_on i rest)
  unfolding set_power_from
  phys_keep list power_on i [] hw = refl
  phys_keep list power_on i (p ∷ rest) hw = ground (
    arith,
    phy_keeps list i power_on hw,
    phys_keep list power_on (i + 1) rest (lwis_phy_set_power_by_idx api.phy hw list i power_on).1,
  )

  pub pinctrl_keeps :
      (pc : ℕ) (name : Name)
      → Keeps out (λ hw. lwis_pinctrl_set_state api.pinctrl hw (some pc) name)
  unfolding lwis_pinctrl_set_state
  pinctrl_keeps pc name hw = by_answer (api.pinctrl.pinctrl_lookup_state hw pc name).0 refl
    where
      by_answer :
          (got : Got)
          → (api.pinctrl.pinctrl_lookup_state hw pc name).0 ≡ got
          → out (lwis_pinctrl_set_state api.pinctrl hw (some pc) name).1 ≡ out hw
      by_answer (refused err) e = rw (lwis_pinctrl_set_state, e) (t.looked_up hw pc name)
      by_answer (handle state) e =
          rw (lwis_pinctrl_set_state, e)
            (t.selected pc state (api.pinctrl.pinctrl_lookup_state hw pc name).1
              ∙ t.looked_up hw pc name)
