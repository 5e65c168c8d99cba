-- ===== src/Ioctl/Settings.antt =====
-- lwis_ioctl.c: clocks and bandwidth, what a device is, and resetting it.
use google_lwis.Prelude.{
  ℕ, ◌+◌, ◌&&◌, Bool, not, Option, none, some, List, [], ◌∷◌, neg, nonzero, ltb, length, take, ◌==◌,
  if◌then◌else◌,
}
use google_lwis.Kernel.{Kernel, World, kmalloc, einval, efault, enodev, enomem, eperm}
use google_lwis.Io.{IoEntry, Bus}
use google_lwis.Supply.{Name}
use google_lwis.Supply.Clock.{Clock}
use google_lwis.Dpm.{
  QosSetting, QosDevice, QosApi, ClkSetting, RateApi, lwis_dpm_update_qos, lwis_dpm_update_clock,
  lwis_dpm_read_clock,
}
use google_lwis.Lifecycle.{LifeApi}
use google_lwis.Ioctl.Registers.{copy_io_entries, synchronous_process_io_entries, buffer_entries}

module _ (k : Kernel) {Hw : Type 0} where
  -- The settings in memory of the kernel. `none` is a read outside the list of clocks.
  unfoldable pub ioctl_dpm_clk_update :
      RateApi Hw
      → Bool
      → Bool
      → World Hw
      → Option (List Clock)
      → List ClkSetting
      → Option (ℕ × World Hw)
  unfolding lwis_dpm_update_clock
  ioctl_dpm_clk_update api copied settings_copied w clocks settings =
      let (done, w1) = kmalloc k w in
      if not copied
      then some (neg efault, w)
      else if not done
      then some (neg enomem, w1)
      else if not settings_copied
      then some (neg efault, w1)
      else elim (lwis_dpm_update_clock api w1.hw clocks settings) [
        | none ↦ none
        | some (ret, hw') ↦ some (ret, record w1 { hw = hw' })
      ]

  -- The devices are looked up by their ids. The loop ends at the first error.
  unfoldable pub update_each :
      QosApi Hw → (ℕ → Option QosDevice) → Hw → QosDevice → List QosSetting → ℕ × Hw
  unfolding lwis_dpm_update_qos
  update_each api devices hw own [] = (0, hw)
  update_each api devices hw own (q ∷ qs) =
      let (ret, hw1) = lwis_dpm_update_qos api hw own (devices q.device_id) q in
      let rest = update_each api devices hw1 own qs in if nonzero ret then (ret, hw1) else rest

  -- Without settings the result is a variable that nothing has set: `none`.
  abbrev result_of : List QosSetting → ℕ × World Hw → Option (ℕ × World Hw)
  result_of [] done = none
  result_of (q ∷ qs) done = some done

  unfoldable pub ioctl_dpm_qos_update :
      QosApi Hw
      → (ℕ → Option QosDevice)
      → Bool
      → Bool
      → World Hw
      → QosDevice
      → List QosSetting
      → Option (ℕ × World Hw)
  unfolding update_each
  ioctl_dpm_qos_update api devices copied settings_copied w own settings =
      let (done, w1) = kmalloc k w in
      let (ret, hw') = update_each api devices w1.hw own settings in
      if not own.is_dpm
      then some (neg einval, w)
      else if not copied
      then some (neg efault, w)
      else if not done
      then some (neg enomem, w1)
      else if not settings_copied
      then some (neg efault, w1)
      else result_of settings (ret, record w1 { hw = hw' })

-- The frequency for the user, of the clocks of the device that is found. The outer `none` is a read of
-- an empty list of clocks.
abbrev read_clock :
    {Hw : Type 0} → RateApi Hw → Bool → Hw → Option (List Clock) → Option (ℕ × Option ℕ)
read_clock api returned hw clocks = elim (lwis_dpm_read_clock api hw clocks) [
  | none ↦ none
  | some rate ↦ (if returned then some (0, some rate) else some (neg efault, none))
]

module _ {Hw : Type 0} (api : RateApi Hw) (copied returned : Bool) where
  unfoldable pub ioctl_dpm_get_clock :
      Hw → QosDevice → Option (QosDevice × Option (List Clock)) → Option (ℕ × Option ℕ)
  unfolding lwis_dpm_read_clock
  ioctl_dpm_get_clock hw own none =
      if not own.is_dpm
      then some (neg einval, none)
      else if not copied
      then some (neg efault, none)
      else some (neg enodev, none)
  ioctl_dpm_get_clock hw own (some (target, clocks)) =
      let read = read_clock api returned hw clocks in
      if not own.is_dpm
      then some (neg einval, none)
      else if not copied
      then some (neg efault, none)
      else if target.enabled == 0 && not target.is_dpm
      then some (neg eperm, none)
      else read

module _ (k : Kernel) {Hw : Type 0} where
  -- The message is written to the log; its buffer is not freed. The size is a `size_t`.
  unfoldable pub ioctl_echo : Bool → Bool → World Hw → ℕ → ℕ × World Hw
  ioctl_echo copied msg_copied w size =
      let (done, w1) = kmalloc k w in
      if not copied
      then (neg efault, w)
      else if size == 0
      then (0, w)
      else if not done
      then (neg enomem, w1)
      else if not msg_copied
      then (neg efault, w1)
      else (0, w1)

-- `struct lwis_clk_setting` of a clock, with its name.
pub record ClkInfo : Type 0 where
  pub name : Option Name
  pub clk_index : ℕ
  pub frequency : ℕ

-- `struct lwis_device_info`, less the name of the device: the used part of its array.
pub record DeviceInfo : Type 0 where
  pub id : ℕ
  pub dev_type : ℕ
  pub num_clks : ℕ
  pub clks : List ClkInfo

-- The clocks from index i on. A name is copied up to 31 bytes.
unfoldable pub clk_infos : ℕ → List Clock → List ClkInfo
clk_infos i [] = []
clk_infos i (c ∷ cs) =
    record {
      name = elim c.name [ none ↦ none | some name ↦ some (take 31 name) ];
      clk_index = i;
      frequency = 0;
    }
    ∷ clk_infos (i + 1) cs

-- LWIS_MAX_CLOCK_NUM
abbrev pub max_clock_num : ℕ
max_clock_num = 20

-- `none` is a write past the end of the array, which has room for 20 clocks.
unfoldable pub ioctl_get_device_info :
    Bool → ℕ → ℕ → Option (List Clock) → Option (ℕ × Option DeviceInfo)
unfolding clk_infos
ioctl_get_device_info returned id dev_type clocks =
    let listed : List Clock = elim clocks [ none ↦ [] | some cs ↦ cs ] in
    let info : DeviceInfo = record {
      id = id;
      dev_type = dev_type;
      num_clks = length listed;
      clks = clk_infos 0 listed;
    } in
    if ltb max_clock_num (length listed)
    then none
    else if returned
    then some (0, some info)
    else some (neg efault, none)

module _ (k : Kernel) {Hw : Type 0} (bus : Bus Hw) (api : LifeApi (World Hw)) where
  -- The errors of flushing are not returned. `none`: the loop has gone past the end of the buffer.
  unfoldable pub ioctl_device_reset :
      Bool
      → Bool
      → (ℕ → Bool)
      → World Hw
      → ℕ
      → List IoEntry
      → Option (ℕ × List (Option IoEntry) × World Hw)
  unfolding copy_io_entries synchronous_process_io_entries
  ioctl_device_reset header_copied entries_copied copies w id es =
      let (ret, w1) = copy_io_entries k bus header_copied entries_copied w in
      let w2 = api.event_queue_clear (api.event_states_clear w1 id) id in
      let w3 = (api.periodic_io_client_flush w2 id).1 in
      let w4 = (api.transaction_client_flush w3 id).1 in
      let held = take (buffer_entries (length es)) es in
      let (done, answers, w5) = synchronous_process_io_entries k bus copies w4 held in
      if nonzero ret
      then some (ret, [], w1)
      else if done == 0 && ltb (length held) (length es)
      then none
      else some (done, answers, api.device_event_states_clear w5)
