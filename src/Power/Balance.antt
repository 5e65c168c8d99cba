-- ===== src/Power/Balance.antt =====
-- The lists of pins that a device holds, and what its steps are assumed to do to their number.
pub mod Loops
pub mod Steps
pub mod Cycle
use google_lwis.Prelude.{
  ℕ, ◌+◌, ◌-◌, ◌≡◌, Bool, true, false, Option, none, some, arith, nonzero, if-cases,
}
use google_lwis.Supply.{Name}
use google_lwis.Supply.Gpio.{GpioDescs, GotGpios, descs, no_descs}
use google_lwis.Power.{PowerDevice, PowerApi, Machine, M, ◌>>◌, ◌also◌}

abbrev pub count_of : Option GpioDescs → ℕ
count_of none = 0
count_of (some gpios) = 1

abbrev pub held : PowerDevice → ℕ
held d = count_of d.reset_gpios + count_of d.shared_enable_gpios + count_of d.enable_gpios

abbrev pub gained : GotGpios → ℕ
gained (descs gpios) = 1
gained (no_descs err) = 0

-- A function that leaves a number alone.
abbrev pub Keeps : {Hw : Type 0} → (Hw → ℕ) → (Hw → ℕ × Hw) → Type 0
Keeps {Hw} out act = (hw : Hw) → out (act hw).1 ≡ out hw

abbrev pub KeepsGiven : {Hw : Type 0} → (Hw → ℕ) → Option (Hw → ℕ × Hw) → Type 0
KeepsGiven out none = Unit {0}
KeepsGiven out (some act) = Keeps out act

-- `out` is the number of lists of pins that the kernel has given out and not taken back: a list that
-- is got is one more, a list that is put is one less, and nothing else changes it.
pub record IsTracking {Hw : Type 0} (api : PowerApi Hw) (out : Hw → ℕ) : Type 0 where
  pub got :
      (hw : Hw) (name : Name)
      → out (api.gpio.devm_gpiod_get_array hw name).1
        ≡ (out hw + gained (api.gpio.devm_gpiod_get_array hw name).0)
  pub put : (hw : Hw) (g : GpioDescs) → out (api.gpio.devm_gpiod_put_array hw g) ≡ out hw - 1
  pub output :
      (g : GpioDescs) (i value : ℕ) → Keeps out (λ hw. api.gpio.gpiod_direction_output hw g i value)
  pub slept : (from to : ℕ) → Keeps out (λ hw. (0, api.usleep_range hw from to))
  pub clk_enable : (c : ℕ) → Keeps out (λ hw. api.clock.clk_prepare_enable hw c)
  pub clk_rate : (c rate : ℕ) → Keeps out (λ hw. api.clock.clk_set_rate hw c rate)
  pub clk_disable : (c : ℕ) → Keeps out (λ hw. (0, api.clock.clk_disable_unprepare hw c))
  pub voltage : (r v : ℕ) → Keeps out (λ hw. api.regulator.regulator_set_voltage hw r v)
  pub reg_enable : (r : ℕ) → Keeps out (λ hw. api.regulator.regulator_enable hw r)
  pub reg_disable : (r : ℕ) → Keeps out (λ hw. api.regulator.regulator_disable hw r)
  pub phy_on : (p : ℕ) → Keeps out (λ hw. api.phy.phy_power_on hw p)
  pub phy_off : (p : ℕ) → Keeps out (λ hw. api.phy.phy_power_off hw p)
  pub pinctrl_got : (hw : Hw) → out (api.pinctrl.devm_pinctrl_get hw).1 ≡ out hw
  pub pinctrl_put : (pc : ℕ) → Keeps out (λ hw. (0, api.pinctrl.devm_pinctrl_put hw pc))
  pub looked_up :
      (hw : Hw) (pc : ℕ) (name : Name)
      → out (api.pinctrl.pinctrl_lookup_state hw pc name).1 ≡ out hw
  pub selected : (pc state : ℕ) → Keeps out (λ hw. api.pinctrl.pinctrl_select_state hw pc state)
  pub platform_on : Keeps out api.lwis_platform_device_enable
  pub platform_off : Keeps out api.lwis_platform_device_disable
  pub type_on : KeepsGiven out api.device_enable
  pub type_off : KeepsGiven out api.device_disable

-- What a part of a function leads to.
abbrev pub Ensures : {Hw : Type 0} → (Machine Hw → Type 0) → M Hw → (Machine Hw → Type 0) → Type 0
Ensures {Hw} P m Q = (s : Machine Hw) → P s → Q (m s).1

module _ {Hw : Type 0} (P Q R : Machine Hw → Type 0) (m k : M Hw) where
  -- An early return leaves the state in which the first part ends.
  pub >>-Ensures :
      Ensures P m Q → Ensures Q k R → ((s : Machine Hw) → Q s → R s) → Ensures P (m >> k) R
  >>-Ensures first second weaken s p =
      if-cases (λ (x : ℕ × Machine Hw). R x.1) (nonzero (m s).0) (λ h. weaken (m s).1 (first s p))
        (λ h. second (m s).1 (first s p))

  pub also-Ensures : Ensures P m Q → Ensures Q k R → Ensures P (m also k) R
  also-Ensures first second s p = second (m s).1 (first s p)

module _ {Hw : Type 0} (out : Hw → ℕ) where
  -- Of `base` lists of pins more than the device holds, none are its own; pins that the device does
  -- not have are not held; and both orders are the default ones.
  pub record Owns (base : ℕ) (s : Machine Hw) : Type 0 where
    pub total : out s.hw ≡ base + held s.own
    pub reset_absent : s.own.reset_gpios_present ≡ false → s.own.reset_gpios ≡ none
    pub shared_absent : s.own.shared_enable_gpios_present ≡ false → s.own.shared_enable_gpios ≡ none
    pub enable_absent : s.own.enable_gpios_present ≡ false → s.own.enable_gpios ≡ none
    pub up_default : s.own.power_up_seqs_present ≡ false
    pub down_default : s.own.power_down_seqs_present ≡ false

  -- The device has not got its pins for a reset, those for a shared enabling, any pins.
  abbrev pub BeforeReset : ℕ → Machine Hw → Type 0
  BeforeReset base s = Owns base s × (s.own.reset_gpios ≡ none)

  abbrev pub BeforeShared : ℕ → Machine Hw → Type 0
  BeforeShared base s = BeforeReset base s × (s.own.shared_enable_gpios ≡ none)

  abbrev pub Released : ℕ → Machine Hw → Type 0
  Released base s = BeforeShared base s × (s.own.enable_gpios ≡ none)
