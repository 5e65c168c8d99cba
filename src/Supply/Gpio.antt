-- ===== src/Supply/Gpio.antt =====
-- lwis_gpio.c: lists of GPIO pins, and the pins named in a power sequence.
use google_lwis.Prelude.{
  ℕ, zero, suc, ◌+◌, ◌^◌, Bool, not, ◌||◌, Option, none, some, List, [], ◌∷◌, neg, nonzero, leb,
  ◌==◌, if◌then◌else◌,
}
use google_lwis.Kernel.{Kernel, World, kmalloc, einval, enomem}
use google_lwis.Supply.{Name, same_name, repeat}

-- `struct gpio_descs`: its handle and the number of its pins.
pub record GpioDescs : Type 0 where
  pub descs : ℕ
  pub ndescs : ℕ

-- `struct lwis_gpios_info`: no pins are NULL.
pub record GpiosInfo : Type 0 where
  pub name : Name
  pub is_shared : Bool
  pub is_pulse : Bool
  pub gpios : Option GpioDescs

-- The answer to a request for pins; without pins it is an error.
pub data GotGpios : Type 0 where
  descs : GpioDescs → GotGpios
  no_descs : ℕ → GotGpios

-- The functions of the kernel for GPIOs. A pin is a list and an index.
pub record GpioApi (Hw : Type 0) : Type 0 where
  pub devm_gpiod_get_array : Hw → Name → GotGpios × Hw
  pub devm_gpiod_put_array : Hw → GpioDescs → Hw
  pub gpiod_direction_output : Hw → GpioDescs → ℕ → ℕ → ℕ × Hw
  pub gpiod_direction_output_raw : Hw → GpioDescs → ℕ → ℕ → ℕ × Hw
  pub gpiod_direction_input : Hw → GpioDescs → ℕ → ℕ × Hw

module _ {Hw : Type 0} where
  -- The loop over the pins from index i on, with n of them left. It ends at the first error.
  unfoldable pub for_each_pin : (Hw → ℕ → ℕ × Hw) → Hw → ℕ → ℕ → ℕ × Hw
  for_each_pin act hw i zero = (0, hw)
  for_each_pin act hw i (suc n) =
      let (ret, hw1) = act hw i in
      let rest = for_each_pin act hw1 (i + 1) n in if nonzero ret then (ret, hw1) else rest

  module _ (api : GpioApi Hw) where
    unfoldable pub lwis_gpio_list_set_output_value : Hw → Option GpioDescs → ℕ → ℕ × Hw
    unfolding for_each_pin
    lwis_gpio_list_set_output_value hw none value = (neg einval, hw)
    lwis_gpio_list_set_output_value hw (some gpios) value =
        for_each_pin (λ hw i. api.gpiod_direction_output hw gpios i value) hw 0 gpios.ndescs

    unfoldable pub lwis_gpio_list_set_output_value_raw : Hw → Option GpioDescs → ℕ → ℕ × Hw
    unfolding for_each_pin
    lwis_gpio_list_set_output_value_raw hw none value = (neg einval, hw)
    lwis_gpio_list_set_output_value_raw hw (some gpios) value =
        for_each_pin (λ hw i. api.gpiod_direction_output_raw hw gpios i value) hw 0 gpios.ndescs

    unfoldable pub lwis_gpio_list_set_input : Hw → Option GpioDescs → ℕ × Hw
    unfolding for_each_pin
    lwis_gpio_list_set_input hw none = (neg einval, hw)
    lwis_gpio_list_set_input hw (some gpios) =
        for_each_pin (λ hw i. api.gpiod_direction_input hw gpios i) hw 0 gpios.ndescs

    abbrev pub lwis_gpio_list_get : Hw → Name → GotGpios × Hw
    lwis_gpio_list_get hw name = api.devm_gpiod_get_array hw name

    abbrev pub lwis_gpio_list_put : Hw → GpioDescs → Hw
    lwis_gpio_list_put hw gpios = api.devm_gpiod_put_array hw gpios

-- What kmalloc leaves in an entry is a parameter. The number is an `int`. The error, or 0 and the
-- list.
module _ (k : Kernel) {Hw : Type 0} (uninitialised : GpiosInfo) where
  unfoldable pub lwis_gpios_list_alloc : World Hw → ℕ → ℕ × List GpiosInfo × World Hw
  lwis_gpios_list_alloc w count =
      let (list_done, w1) = kmalloc k w in
      let (info_done, w2) = kmalloc k w1 in
      if count == 0 || leb (2 ^ 31) count
      then (neg einval, [], w)
      else if not list_done
      then (neg enomem, [], w1)
      else if not info_done
      then (neg enomem, [], w2)
      else (0, repeat count uninitialised, w2)

-- The index of the first entry with the name, from an index on.
unfoldable pub find_info : List GpiosInfo → Name → ℕ → Option ℕ
find_info [] name i = none
find_info (g ∷ gs) name i = if same_name g.name name then some i else find_info gs name (i + 1)

-- `none` is -EINVAL.
unfoldable pub lwis_gpios_get_info_by_name : Option (List GpiosInfo) → Name → Option ℕ
unfolding find_info
lwis_gpios_get_info_by_name none name = none
lwis_gpios_get_info_by_name (some list) name = find_info list name 0
