-- ===== src/Power.antt =====
-- lwis_device.h: the part of a device that powering it up and down uses, with the other devices.
pub mod Up
pub mod Down
pub mod Sequence
pub mod Locked
pub mod Balance
use google_lwis.Prelude.{
  ℕ, Bool, true, false, not, ◌&&◌, Option, none, some, List, [], ◌∷◌, nonzero, ◌==◌, if◌then◌else◌,
}
use google_lwis.Supply.{Name}
use google_lwis.Supply.Clock.{Clock, ClockApi}
use google_lwis.Supply.Regulator.{Regulator, RegulatorApi}
use google_lwis.Supply.Gpio.{GpioDescs, GpiosInfo, GpioApi, lwis_gpio_list_set_output_value}
use google_lwis.Supply.Phy.{Phy, PhyApi}
use google_lwis.Supply.Pinctrl.{PinctrlApi}

-- What the code tells apart of the `type` of a step of a power sequence.
pub data StepType : Type 0 where
  regulator gpio pinctrl other : StepType

-- `struct lwis_device_power_sequence_info`
pub record SequenceInfo : Type 0 where
  pub name : Name
  pub step_type : StepType
  pub delay_us : ℕ

-- `struct lwis_device`: a NULL list, list of pins or pin control is `none`. `has_i2c_lock` says that
-- global_i2c_lock is not NULL.
pub record PowerDevice : Type 0 where
  pub id : ℕ
  pub enabled : ℕ
  pub has_i2c_lock : Bool
  pub clocks : Option (List Clock)
  pub regulators : Option (List Regulator)
  pub phys : Option (List Phy)
  pub gpios_list : Option (List GpiosInfo)
  pub reset_gpios_present : Bool
  pub reset_gpios : Option GpioDescs
  pub enable_gpios_present : Bool
  pub enable_gpios : Option GpioDescs
  pub shared_enable_gpios_present : Bool
  pub shared_enable_gpios : Option GpioDescs
  pub enable_gpios_settle_time : ℕ
  pub mclk_present : Bool
  pub mclk_ctrl : Option ℕ
  pub shared_pinctrl : ℕ
  pub power_up_seqs_present : Bool
  pub power_up_sequence : Option (List SequenceInfo)
  pub power_down_seqs_present : Bool
  pub power_down_sequence : Option (List SequenceInfo)

-- The functions of the kernel, and those of the platform and of the device's type. The latter two are
-- NULL at `none`.
pub record PowerApi (Hw : Type 0) : Type 0 where
  pub clock : ClockApi Hw
  pub regulator : RegulatorApi Hw
  pub gpio : GpioApi Hw
  pub phy : PhyApi Hw
  pub pinctrl : PinctrlApi Hw
  pub usleep_range : Hw → ℕ → ℕ → Hw
  pub lwis_platform_device_enable : Hw → ℕ × Hw
  pub lwis_platform_device_disable : Hw → ℕ × Hw
  pub device_enable : Option (Hw → ℕ × Hw)
  pub device_disable : Option (Hw → ℕ × Hw)

-- A device, the other devices of core.lwis_dev_list in its order, and the hardware. `strayed` records
-- that the name of an empty slot, which is NULL, was read; C leaves that undefined, and here it is an
-- error.
pub record Machine (Hw : Type 0) : Type 0 where
  pub own : PowerDevice
  pub others : List PowerDevice
  pub hw : Hw
  pub strayed : Bool

-- A part of a function: its result is 0 or an error.
abbrev pub M : Type 0 → Type 0
M Hw = Machine Hw → ℕ × Machine Hw

-- `ret = m(); if (ret) return ret; k()`.
infixl 5 ◌>>◌ ◌also◌
abbrev pub ◌>>◌ : {Hw : Type 0} → M Hw → M Hw → M Hw
◌>>◌ m k s = let (ret, s1) = m s in let rest = k s1 in if nonzero ret then (ret, s1) else rest

-- `ret = m(); if (ret) last_error = ret; k()`, where k sets last_error likewise.
abbrev pub ◌also◌ : {Hw : Type 0} → M Hw → M Hw → M Hw
◌also◌ m k s =
    let (ret, s1) = m s in let (later, s2) = k s1 in (if nonzero later then later else ret, s2)

module _ {Hw : Type 0} where
  abbrev pub on_hw : (Hw → ℕ × Hw) → M Hw
  on_hw act s = let (ret, hw') = act s.hw in (ret, record s { hw = hw' })

  -- A part that is left out where its list or its function is NULL.
  abbrev pub where_given : {A : Type 0} → Option A → (A → Hw → ℕ × Hw) → M Hw
  where_given none act s = (0, s)
  where_given (some a) act s = on_hw (act a) s

  abbrev pub put_own : Machine Hw → PowerDevice → Machine Hw
  put_own s d = record s { own = d }

module _ {Hw : Type 0} (api : PowerApi Hw) where
  abbrev pub usleep_range : ℕ → ℕ → M Hw
  usleep_range from to = on_hw (λ hw. (0, api.usleep_range hw from to))

  abbrev pub set_pins : Option GpioDescs → ℕ → M Hw
  set_pins gpios value = on_hw (λ hw. lwis_gpio_list_set_output_value api.gpio hw gpios value)

-- Another device that is enabled and shares the pin control.
abbrev pub is_sharing : PowerDevice → PowerDevice → Bool
is_sharing own it =
    not (own.id == it.id) && it.shared_pinctrl == own.shared_pinctrl && nonzero it.enabled

abbrev pub is_shared_by : PowerDevice → List PowerDevice → Bool
is_shared_by own [] = false
is_shared_by own (it ∷ its) = if is_sharing own it then true else is_shared_by own its
