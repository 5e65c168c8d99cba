-- ===== src/Dpm.antt =====
-- lwis_device_dpm.c: requests for bandwidth, frequencies and clock rates.
use google_lwis.Prelude.{
  ℕ, ◌-◌, ◌/◌, ◌%◌, ◌^◌, Bool, not, ◌&&◌, ◌||◌, Option, none, some, List, [], ◌∷◌, neg, nonzero,
  slt64, leb, ◌==◌, if◌then◌else◌, get_elem?,
}
use google_lwis.Kernel.{einval, enoent, enodev, eperm}
use google_lwis.Supply.Clock.{Clock}

-- `struct lwis_qos_setting`: the numbers are `int64_t` and `int32_t` as bit patterns.
pub record QosSetting : Type 0 where
  pub frequency_hz : ℕ
  pub device_id : ℕ
  pub clock_family : ℕ
  pub read_bw : ℕ
  pub write_bw : ℕ
  pub peak_bw : ℕ
  pub rt_bw : ℕ

-- What is used of `struct lwis_device`.
pub record QosDevice : Type 0 where
  pub id : ℕ
  pub is_dpm : Bool
  pub enabled : ℕ

-- The functions of the platform: a device is given by its id.
pub record QosApi (Hw : Type 0) : Type 0 where
  pub lwis_platform_update_bts : Hw → ℕ → ℕ → ℕ → ℕ → ℕ → ℕ × Hw
  pub lwis_platform_update_qos : Hw → ℕ → ℕ → ℕ → ℕ × Hw

-- The division of an `int64_t` by a positive number, which rounds towards 0.
abbrev pub sdiv64 : ℕ → ℕ → ℕ
sdiv64 a n = if slt64 a 0 then (2 ^ 64 - (2 ^ 64 - a) / n) % 2 ^ 64 else a / n

abbrev pub positive_or : ℕ → ℕ → ℕ
positive_or a other = if slt64 0 a then a else other

-- CLOCK_FAMILY_MIF and _INT; CLOCK_FAMILY_TNR, _CAM and _INTCAM.
abbrev pub is_memory_family : ℕ → Bool
is_memory_family family = family == 3 || family == 4

abbrev pub is_core_family : ℕ → Bool
is_core_family family = family == 2 || family == 0 || family == 1

-- The frequency in kHz, as an `int`.
abbrev pub khz : QosSetting → ℕ
khz q = sdiv64 q.frequency_hz 1000 % 2 ^ 32

module _ {Hw : Type 0} (api : QosApi Hw) where
  unfoldable pub update_bandwidth : Hw → QosDevice → QosDevice → QosSetting → ℕ × Hw
  update_bandwidth hw own target q =
      let larger = if slt64 q.write_bw q.read_bw then q.read_bw else q.write_bw in
      let peak_bw = positive_or q.peak_bw (sdiv64 larger 4) in
      let rt_bw = positive_or q.rt_bw 0 in
      let (ret, hw1) =
        api.lwis_platform_update_bts hw target.id peak_bw q.read_bw q.write_bw rt_bw in
      if leb (2 ^ 31) ret
      then (ret, hw1)
      else if not (slt64 q.frequency_hz 0) && own.id == target.id
      then api.lwis_platform_update_qos hw1 own.id (khz q) q.clock_family
      else (ret, hw1)

  -- The device that is found by its id, where there is one.
  unfoldable pub lwis_dpm_update_qos : Hw → QosDevice → Option QosDevice → QosSetting → ℕ × Hw
  unfolding update_bandwidth
  lwis_dpm_update_qos hw own none q = (neg enoent, hw)
  lwis_dpm_update_qos hw own (some target) q =
      if target.enabled == 0 && not target.is_dpm
      then (neg eperm, hw)
      else if is_memory_family q.clock_family
      then update_bandwidth hw own target q
      else if is_core_family q.clock_family
      then api.lwis_platform_update_qos hw target.id (khz q) q.clock_family
      else (neg einval, hw)

-- `struct lwis_clk_setting`
pub record ClkSetting : Type 0 where
  pub clk_index : ℕ
  pub frequency : ℕ

pub record RateApi (Hw : Type 0) : Type 0 where
  pub clk_get_rate : Hw → ℕ → ℕ
  pub clk_set_rate : Hw → ℕ → ℕ → ℕ × Hw

module _ {Hw : Type 0} (api : RateApi Hw) where
  -- The rate is read before the index is tested: `none` is a read outside the list.
  unfoldable pub update_clocks : Hw → List Clock → List ClkSetting → Option (ℕ × Hw)
  update_clocks hw clocks [] = some (0, hw)
  update_clocks hw clocks (s ∷ rest) = elim (get_elem? clocks s.clk_index) [
    | none ↦ none
    | some c ↦
        (let (ret, hw1) = api.clk_set_rate hw c.clk s.frequency in
          let kept = update_clocks hw clocks rest in
          let changed = update_clocks hw1 clocks rest in
          if api.clk_get_rate hw c.clk % 2 ^ 32 == s.frequency
          then kept
          else if nonzero ret
          then some (ret, hw1)
          else changed)
  ]

  unfoldable pub lwis_dpm_update_clock :
      Hw → Option (List Clock) → List ClkSetting → Option (ℕ × Hw)
  unfolding update_clocks
  lwis_dpm_update_clock hw none settings = some (neg einval, hw)
  lwis_dpm_update_clock hw (some clocks) settings = update_clocks hw clocks settings

  -- The result is an `uint32_t`, an error too. `none` is a read of an empty list.
  unfoldable pub lwis_dpm_read_clock : Hw → Option (List Clock) → Option ℕ
  lwis_dpm_read_clock hw none = some (neg enodev)
  lwis_dpm_read_clock hw (some []) = none
  lwis_dpm_read_clock hw (some (c ∷ cs)) = some (api.clk_get_rate hw c.clk % 2 ^ 32)
