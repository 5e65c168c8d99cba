-- ===== src/Power/Balance/Cycle.antt =====
-- Powering a device up and down in the default order.
use google_lwis.Prelude.{
  ℕ, ◌≢◌, refl, Bool, true, false, not, Option, none, some, nonzero, if-cases,
}
use google_lwis.Supply.Clock.{enable_from, lwis_clock_disable_all}
use google_lwis.Supply.Regulator.{lwis_regulator_enable_all, lwis_regulator_disable_all}
use google_lwis.Supply.Phy.{set_power_from}
use google_lwis.Power.{PowerApi, Machine, M, ◌>>◌, ◌also◌, on_hw, where_given, usleep_range}
use google_lwis.Power.Up.{
  power_up_regulators, power_up_enable_gpios, power_up_shared_enable_gpios, power_up_mclk,
  power_up_reset_gpios, lwis_dev_power_up_by_default,
}
use google_lwis.Power.Down.{
  power_down_regulators, power_down_enable_gpios, power_down_shared_enable_gpios, power_down_mclk,
  power_down_reset_gpios, lwis_dev_power_down_by_default,
}
use google_lwis.Power.Locked.{
  up_clocks, up_order, set_phys, down_order, down_clocks, power_up_parts, lwis_dev_power_up_locked,
  lwis_dev_power_down_locked,
}
use google_lwis.Power.Balance.{
  Keeps, KeepsGiven, IsTracking, Ensures, >>-Ensures, also-Ensures, Owns, BeforeReset, BeforeShared,
  Released,
}
use google_lwis.Power.Balance.Loops.{
  clocks_keep, clocks_off_keep, regulators_keep, regulators_off_keep, phys_keep,
}
use google_lwis.Power.Balance.Steps.{
  Sees, Owns-Sees, BeforeShared-Sees, on_hw-Ensures, usleep-Ensures, enable-Ensures, shared-Ensures,
  mclk-Ensures, reset-Ensures, down_mclk-Ensures, down_reset-Ensures, down_shared-Ensures,
  down_enable-Ensures,
}

module _ {Hw : Type 0} (api : PowerApi Hw) (out : Hw → ℕ) (t : IsTracking api out) where
  Released-Sees : (base : ℕ) → Sees out (Released out base)
  Released-Sees base s hw' same o = (BeforeShared-Sees out base s hw' same o.0, o.1)

  module _ (P : Machine Hw → Type 0) (sees : Sees out P) where
    given-Ensures :
        {A : Type 0} (o : Option A) (act : A → Hw → ℕ × Hw)
        → ((a : A) → Keeps out (act a))
        → Ensures P (where_given o act) P
    given-Ensures none act keeps s p = p
    given-Ensures (some a) act keeps s p = on_hw-Ensures api out t P sees (act a) (keeps a) s p

    type-Ensures :
        (o : Option (Hw → ℕ × Hw)) → KeepsGiven out o → Ensures P (where_given o (λ act. act)) P
    type-Ensures none keeps s p = p
    type-Ensures (some act) keeps s p = on_hw-Ensures api out t P sees act keeps s p

    phys-Ensures : (power_on : Bool) → Ensures P (set_phys api power_on) P
    unfolding set_phys
    phys-Ensures power_on s p =
        given-Ensures s.own.phys (λ list hw. set_power_from api.phy hw list power_on 0 list)
          (λ list. phys_keep api out t list power_on 0 list) s p

    clocks-Ensures : Ensures P (up_clocks api) P
    unfolding up_clocks
    clocks-Ensures s p =
        given-Ensures s.own.clocks (λ list hw. enable_from api.clock hw list 0 list)
          (λ list. clocks_keep api out t list 0 list) s p

    clocks_off-Ensures : Ensures P (down_clocks api) P
    unfolding down_clocks
    clocks_off-Ensures s p =
        given-Ensures s.own.clocks (λ list hw. (0, lwis_clock_disable_all api.clock hw list))
          (clocks_off_keep api out t) s p

    regulators-Ensures : Ensures P (power_up_regulators api) P
    unfolding power_up_regulators
    regulators-Ensures s p =
        given-Ensures s.own.regulators (λ list hw. lwis_regulator_enable_all api.regulator hw list)
          (regulators_keep api out t) s p

    regulators_off-Ensures : Ensures P (power_down_regulators api) P
    unfolding power_down_regulators
    regulators_off-Ensures s p =
        given-Ensures s.own.regulators (λ list hw. lwis_regulator_disable_all api.regulator hw list)
          (regulators_off_keep api out t) s p

  module _ (base : ℕ) where
    abbrev Start : Machine Hw → Type 0
    Start = Released out base

    abbrev Held : Machine Hw → Type 0
    Held = Owns out base

    held : (s : Machine Hw) → Start s → Held s
    held s p = p.0.0.0

    by_default-Ensures : Ensures Start (lwis_dev_power_up_by_default api) Held
    unfolding lwis_dev_power_up_by_default
    by_default-Ensures =
        let shared : M Hw = power_up_shared_enable_gpios api in
        let mclk : M Hw = power_up_mclk api in
        let reset : M Hw = power_up_reset_gpios api in
        let before_shared = BeforeShared out base in
        let before_reset = BeforeReset out base in
        >>-Ensures Start Start Held (power_up_regulators api)
          (power_up_enable_gpios api >> (shared >> (mclk >> reset)))
          (regulators-Ensures Start (Released-Sees base))
          (>>-Ensures Start before_shared Held (power_up_enable_gpios api)
            (shared >> (mclk >> reset)) (enable-Ensures api out t base)
            (>>-Ensures before_shared before_reset Held shared (mclk >> reset)
              (shared-Ensures api out t base)
              (>>-Ensures before_reset before_reset Held mclk reset (mclk-Ensures api out t base)
                (reset-Ensures api out t base) (λ s p. p.0))
              (λ s p. p.0))
            (λ s p. p.0.0))
          held

    down_default-Ensures : Ensures Held (lwis_dev_power_down_by_default api) Start
    unfolding lwis_dev_power_down_by_default
    down_default-Ensures =
        let mclk : M Hw = power_down_mclk api in
        let reset : M Hw = power_down_reset_gpios api in
        let shared : M Hw = power_down_shared_enable_gpios api in
        let enable : M Hw = power_down_enable_gpios api in
        also-Ensures Held Start Start (((mclk also reset) also shared) also enable)
          (power_down_regulators api)
          (also-Ensures Held (BeforeShared out base) Start ((mclk also reset) also shared) enable
            (also-Ensures Held (BeforeReset out base) (BeforeShared out base) (mclk also reset)
              shared
              (also-Ensures Held Held (BeforeReset out base) mclk reset
                (down_mclk-Ensures api out t base) (down_reset-Ensures api out t base))
              (down_shared-Ensures api out t base))
            (down_enable-Ensures api out t base))
          (regulators_off-Ensures Start (Released-Sees base))

    up_order-Ensures : Ensures Start (up_order api) Held
    unfolding up_order
    up_order-Ensures s p =
        if-cases (λ (x : ℕ × Machine Hw). Held x.1) s.own.power_up_seqs_present
          (λ h. cc (p.0.0.0.up_default)) (λ h. by_default-Ensures s p)

    down_order-Ensures : Ensures Held (down_order api) Start
    unfolding down_order
    down_order-Ensures s p =
        if-cases (λ (x : ℕ × Machine Hw). Start x.1) s.own.power_down_seqs_present
          (λ h. cc (p.down_default)) (λ h. down_default-Ensures s p)

    parts-Ensures : Ensures Start (power_up_parts api) Held
    unfolding power_up_parts
    parts-Ensures =
        let sees = Released-Sees base in
        let sees_held = Owns-Sees out base in
        let on : M Hw = where_given api.device_enable (λ enable. enable) in
        let sleep : M Hw = usleep_range api 2000 2000 in
        let phys : M Hw = set_phys api true in
        >>-Ensures Start Start Held (on_hw api.lwis_platform_device_enable)
          (up_clocks api >> (up_order api >> (phys >> (on >> sleep))))
          (on_hw-Ensures api out t Start sees api.lwis_platform_device_enable t.platform_on)
          (>>-Ensures Start Start Held (up_clocks api) (up_order api >> (phys >> (on >> sleep)))
            (clocks-Ensures Start sees)
            (>>-Ensures Start Held Held (up_order api) (phys >> (on >> sleep)) up_order-Ensures
              (>>-Ensures Held Held Held phys (on >> sleep) (phys-Ensures Held sees_held true)
                (>>-Ensures Held Held Held on sleep
                  (type-Ensures Held sees_held api.device_enable t.type_on)
                  (usleep-Ensures api out t Held sees_held 2000 2000) (λ s p. p))
                (λ s p. p))
              (λ s p. p))
            held)
          held

    pub power_down-Ensures : Ensures Held (lwis_dev_power_down_locked api) Start
    unfolding lwis_dev_power_down_locked
    power_down-Ensures =
        let sees = Released-Sees base in
        let sees_held = Owns-Sees out base in
        let off : M Hw = where_given api.device_disable (λ disable. disable) in
        let phys : M Hw = set_phys api false in
        let platform : M Hw = on_hw api.lwis_platform_device_disable in
        also-Ensures Held Start Start (((off also phys) also down_order api) also down_clocks api)
          platform
          (also-Ensures Held Start Start ((off also phys) also down_order api) (down_clocks api)
            (also-Ensures Held Held Start (off also phys) (down_order api)
              (also-Ensures Held Held Held off phys
                (type-Ensures Held sees_held api.device_disable t.type_off)
                (phys-Ensures Held sees_held false))
              down_order-Ensures)
            (clocks_off-Ensures Start sees))
          (on_hw-Ensures api out t Start sees api.lwis_platform_device_disable t.platform_off)

  pub power_up-Owns :
      (base : ℕ) (s : Machine Hw)
      → Released out base s
      → Owns out base (lwis_dev_power_up_locked api s).1
  unfolding lwis_dev_power_up_locked
  power_up-Owns base s p =
      let up = parts-Ensures base s p in
      let undone = power_down-Ensures base (power_up_parts api s).1 up in
      let left = λ (x : ℕ × Machine Hw). Owns out base x.1 in
      if-cases left (not s.own.has_i2c_lock) (λ h. held base s p)
        (λ h. if-cases left (nonzero (power_up_parts api s).0) (λ e. held base _ undone) (λ e. up))

  -- A device is powered up and down in the default order, whichever errors occur. Assumed is that the
  -- kernel counts the lists of pins that it has given out, and that only requesting and putting pins
  -- changes the count; that `base` lists are out and the device holds none before. Then a power-up that
  -- returns an error leaves the device without pins and `base` lists out. So does powering the device
  -- down after the power-up, whatever either returns.
  pub power_cycle-Released :
      (base : ℕ) (s : Machine Hw)
      → Released out base s
      → ((lwis_dev_power_up_locked api s).0 ≢ 0
          → Released out base (lwis_dev_power_up_locked api s).1)
        × Released out base (lwis_dev_power_down_locked api (lwis_dev_power_up_locked api s).1).1
  unfolding lwis_dev_power_up_locked
  power_cycle-Released base s p =
      let up = parts-Ensures base s p in
      let undone = power_down-Ensures base (power_up_parts api s).1 up in
      let failed = λ (x : ℕ × Machine Hw). (x.0 ≢ 0 → Released out base x.1) in
      (
        if-cases failed (not s.own.has_i2c_lock) (λ h n. p)
            (λ h.
              if-cases failed (nonzero (power_up_parts api s).0) (λ e n. undone)
                (λ e n. absurd (n refl))),
        power_down-Ensures base (lwis_dev_power_up_locked api s).1 (power_up-Owns base s p),
      )
