-- ===== src/Tests/Power.antt =====
-- A device with pins to enable and to reset, on hardware that counts the lists of pins given out, and
-- its clients.
use google_lwis.Prelude.{ℕ, ◌+◌, ◌-◌, ◌≢◌, refl, true, false, none, [], ◌∷◌, arith, neg, List}
use google_lwis.Kernel.{einval}
use google_lwis.Supply.{handle, refused}
use google_lwis.Supply.Gpio.{descs}
use google_lwis.Power.{PowerDevice, PowerApi, Machine}
use google_lwis.Power.Locked.{lwis_dev_power_up_locked, lwis_dev_power_down_locked}
use google_lwis.Power.Balance.{IsTracking, Owns, Released}
use google_lwis.Power.Balance.Cycle.{power_cycle-Released}
use google_lwis.Lifecycle.{LifeDevice, LifeApi}
use google_lwis.Lifecycle.Counted.{IsCounted, run_lives-IsCounted}
use google_lwis.Lifecycle.Runs.{enables, disables, closes, Life, opened, by_client, run_lives}
use google_lwis.Lifecycle.Pins.{with_power, IsLeaving, power-IsSwitching}

-- Every request for pins succeeds.
abbrev hardware : PowerApi ℕ
hardware = record {
  clock = record {
    devm_clk_get = λ hw name. (handle 1, hw);
    devm_clk_put = λ hw c. hw;
    clk_prepare_enable = λ hw c. (0, hw);
    clk_set_rate = λ hw c rate. (0, hw);
    clk_disable_unprepare = λ hw c. hw;
  };
  regulator = record {
    devm_regulator_get = λ hw name. (handle 1, hw);
    devm_regulator_put = λ hw r. hw;
    regulator_set_voltage = λ hw r v. (0, hw);
    regulator_enable = λ hw r. (0, hw);
    regulator_disable = λ hw r. (0, hw);
  };
  gpio = record {
    devm_gpiod_get_array = λ hw name. (descs (record { descs = 7; ndescs = 1 }), hw + 1);
    devm_gpiod_put_array = λ hw g. hw - 1;
    gpiod_direction_output = λ hw g i value. (0, hw);
    gpiod_direction_output_raw = λ hw g i value. (0, hw);
    gpiod_direction_input = λ hw g i. (0, hw);
  };
  phy = record {
    devm_phy_get = λ hw name. (handle 1, hw);
    devm_phy_put = λ hw p. hw;
    phy_power_on = λ hw p. (0, hw);
    phy_power_off = λ hw p. (0, hw);
  };
  pinctrl = record {
    devm_pinctrl_get = λ hw. (handle 3, hw);
    devm_pinctrl_put = λ hw pc. hw;
    pinctrl_lookup_state = λ hw pc name. (refused (neg einval), hw);
    pinctrl_select_state = λ hw pc state. (0, hw);
  };
  usleep_range = λ hw from to. hw;
  lwis_platform_device_enable = λ hw. (0, hw);
  lwis_platform_device_disable = λ hw. (0, hw);
  device_enable = none;
  device_disable = none;
}

abbrev sensor : PowerDevice
sensor = record {
  id = 1;
  enabled = 0;
  has_i2c_lock = true;
  clocks = none;
  regulators = none;
  phys = none;
  gpios_list = none;
  reset_gpios_present = true;
  reset_gpios = none;
  enable_gpios_present = true;
  enable_gpios = none;
  shared_enable_gpios_present = false;
  shared_enable_gpios = none;
  enable_gpios_settle_time = 0;
  mclk_present = false;
  mclk_ctrl = none;
  shared_pinctrl = 0;
  power_up_seqs_present = false;
  power_up_sequence = none;
  power_down_seqs_present = false;
  power_down_sequence = none;
}

abbrev machine : Machine ℕ
machine = record { own = sensor; others = []; hw = 5; strayed = false }

tracking : IsTracking hardware (λ n. n)
tracking = record {
  got = λ hw name. refl;
  put = λ hw g. refl;
  output = λ g i value hw. refl;
  slept = λ from to hw. refl;
  clk_enable = λ c hw. refl;
  clk_rate = λ c rate hw. refl;
  clk_disable = λ c hw. refl;
  voltage = λ r v hw. refl;
  reg_enable = λ r hw. refl;
  reg_disable = λ r hw. refl;
  phy_on = λ p hw. refl;
  phy_off = λ p hw. refl;
  pinctrl_got = λ hw. refl;
  pinctrl_put = λ pc hw. refl;
  looked_up = λ hw pc name. refl;
  selected = λ pc state hw. refl;
  platform_on = λ hw. refl;
  platform_off = λ hw. refl;
  type_on = tt;
  type_off = tt;
}

owns : Owns (λ n. n) 5 machine
owns = record {
  total = refl;
  reset_absent = λ e. refl;
  shared_absent = λ e. refl;
  enable_absent = λ e. refl;
  up_default = refl;
  down_default = refl;
}

released : Released (λ n. n) 5 machine
released = (((owns, refl), refl), refl)

power_cycle-Released_example :
    ((lwis_dev_power_up_locked hardware machine).0 ≢ 0
      → Released (λ n. n) 5 (lwis_dev_power_up_locked hardware machine).1)
    × Released
        (λ n. n)
        5
        (lwis_dev_power_down_locked hardware (lwis_dev_power_up_locked hardware machine).1).1
power_cycle-Released_example = power_cycle-Released hardware (λ n. n) tracking 5 machine released

-- The rest of the driver does nothing to the pins.
abbrev driver : LifeApi (Machine ℕ)
driver = record {
  power_up = λ s. (0, s);
  power_down = λ s. (0, s);
  cleanup_client = λ s id. s;
  event_queue_clear = λ s id. s;
  event_states_clear = λ s id. s;
  periodic_io_client_flush = λ s id. (0, s);
  transaction_client_flush = λ s id. (0, s);
  transaction_client_cleanup = λ s id. s;
  platform_update_bts = λ s. s;
  platform_remove_qos = λ s. s;
  device_event_states_clear = λ s. s;
  close = none;
}

leaving : IsLeaving (λ n. n) driver
leaving = record {
  cleanup = λ id s. (refl, refl);
  queue = λ id s. (refl, refl);
  quiesced = λ id s. (refl, refl);
  bts = λ s. (refl, refl);
  qos = λ s. (refl, refl);
  states = λ s. (refl, refl);
  closed = λ s. (refl, refl);
}

abbrev closed_device : LifeDevice (Machine ℕ)
closed_device = record {
  enabled = 0;
  clients = [];
  next_client = 0;
  bts_supported = false;
  hw = machine;
}

-- Two clients enable the device; one disables it, the other is closed.
abbrev lives : List Life
lives =
    opened true true
    ∷ opened true true
    ∷ by_client enables 0
    ∷ by_client enables 1
    ∷ by_client disables 0
    ∷ by_client closes 1
    ∷ []

counted :
    IsCounted
      (with_power hardware driver)
      (Released (λ n. n) 5)
      (Owns (λ n. n) 5)
      (power-IsSwitching (λ n. n) hardware driver 5 tracking leaving)
      closed_device
counted = record { counted = refl; small = omega arith; on = owns; off = λ e. released }

run_lives-IsCounted_example :
    IsCounted
      (with_power hardware driver)
      (Released (λ n. n) 5)
      (Owns (λ n. n) 5)
      (power-IsSwitching (λ n. n) hardware driver 5 tracking leaving)
      (run_lives (with_power hardware driver) closed_device lives)
run_lives-IsCounted_example =
    run_lives-IsCounted (with_power hardware driver) (Released (λ n. n) 5) (Owns (λ n. n) 5)
      (power-IsSwitching (λ n. n) hardware driver 5 tracking leaving) closed_device lives counted
