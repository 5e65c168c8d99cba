-- ===== src/Lifecycle.antt =====
-- lwis_device.c and lwis_ioctl.c: opening, enabling, disabling and closing a device by its clients.
pub mod Runs
pub mod Counted
pub mod Pins
use google_lwis.Prelude.{
  ℕ, ◌+◌, ◌-◌, ◌^◌, Bool, true, false, not, ◌&&◌, Option, none, some, List, [], ◌∷◌, neg, nonzero,
  ltb, leb, ◌==◌, if◌then◌else◌,
}
use google_lwis.Kernel.{einval, enodev, enomem}
use google_lwis.Event.States.Table.{find, modify}

-- `struct lwis_client`: the number stands for its address.
pub record OpenClient : Type 0 where
  pub id : ℕ
  pub is_enabled : Bool

-- `struct lwis_device`, with the number of the next client. `enabled` is an `int`, and never negative.
pub record LifeDevice (Hw : Type 0) : Type 0 where
  pub enabled : ℕ
  pub clients : List OpenClient
  pub next_client : ℕ
  pub bts_supported : Bool
  pub hw : Hw

-- What the other parts of the driver do: powering, and clearing what a client or the device has. A
-- client is given by its number. `close` is NULL at `none`.
pub record LifeApi (Hw : Type 0) : Type 0 where
  pub power_up : Hw → ℕ × Hw
  pub power_down : Hw → ℕ × Hw
  pub cleanup_client : Hw → ℕ → Hw
  pub event_queue_clear : Hw → ℕ → Hw
  pub event_states_clear : Hw → ℕ → Hw
  pub periodic_io_client_flush : Hw → ℕ → ℕ × Hw
  pub transaction_client_flush : Hw → ℕ → ℕ × Hw
  pub transaction_client_cleanup : Hw → ℕ → Hw
  pub platform_update_bts : Hw → Hw
  pub platform_remove_qos : Hw → Hw
  pub device_event_states_clear : Hw → Hw
  pub close : Option (Hw → Hw)

abbrev pub client_key : OpenClient → ℕ
client_key c = c.id

abbrev pub is_negative : ℕ → Bool
is_negative ret = leb (2 ^ 31) ret

abbrev pub int_max : ℕ
int_max = 2 ^ 31 - 1

-- `list_del` of the client that is found under a number.
unfoldable pub del_client : List OpenClient → ℕ → List OpenClient
del_client [] id = []
del_client (c ∷ cs) id = if c.id == id then cs else c ∷ del_client cs id

module _ {Hw : Type 0} where
  abbrev pub set_enabled : LifeDevice Hw → ℕ → Bool → List OpenClient
  set_enabled d id on = modify client_key d.clients id (λ c. record c { is_enabled = on })

  -- `present` says whether the device of the file is found, `allocated` whether kzalloc succeeds.
  unfoldable pub lwis_open : Bool → Bool → LifeDevice Hw → ℕ × LifeDevice Hw
  lwis_open present allocated d =
      let c : OpenClient = record { id = d.next_client; is_enabled = false } in
      if not present
      then (neg enodev, d)
      else if not allocated
      then (neg enomem, d)
      else (0, record d { clients = c ∷ d.clients; next_client = d.next_client + 1 })

  abbrev pub run_close : Option (Hw → Hw) → Hw → Hw
  run_close none hw = hw
  run_close (some close) hw = close hw

module _ {Hw : Type 0} (api : LifeApi Hw) where
  -- The device is powered up for its first client.
  unfoldable pub enable_first : LifeDevice Hw → ℕ → ℕ × LifeDevice Hw
  enable_first d id =
      let (ret, hw1) = api.power_up (api.event_queue_clear d.hw id) in
      if is_negative ret
      then (ret, record d { hw = hw1 })
      else (ret, record d { enabled = d.enabled + 1; clients = set_enabled d id true; hw = hw1 })

  unfoldable pub ioctl_device_enable : LifeDevice Hw → OpenClient → ℕ × LifeDevice Hw
  unfolding enable_first
  ioctl_device_enable d c =
      if c.is_enabled
      then (0, d)
      else if ltb 0 d.enabled && ltb d.enabled int_max
      then (0, record d { enabled = d.enabled + 1; clients = set_enabled d c.id true })
      else if d.enabled == int_max
      then (neg einval, d)
      else enable_first d c.id

  -- What is cleared and flushed before the counter is looked at; the errors are not returned.
  abbrev pub quiesce : Hw → ℕ → Hw
  quiesce hw id =
      let hw1 = api.event_states_clear hw id in
      let hw2 = (api.periodic_io_client_flush hw1 id).1 in
      let hw3 = (api.transaction_client_flush hw2 id).1 in api.transaction_client_cleanup hw3 id

  -- The device is powered down for its last client.
  unfoldable pub disable_last : LifeDevice Hw → ℕ → ℕ × LifeDevice Hw
  disable_last d id =
      let (ret, hw1) = api.power_down d.hw in
      if is_negative ret then (ret, record d { hw = hw1 }) else (
        ret,
        record d {
          enabled = d.enabled - 1;
          clients = set_enabled d id false;
          hw = api.device_event_states_clear hw1;
        },
      )

  unfoldable pub ioctl_device_disable : LifeDevice Hw → OpenClient → ℕ × LifeDevice Hw
  unfolding disable_last
  ioctl_device_disable d c =
      let d1 = record d { hw = quiesce d.hw c.id } in
      if not c.is_enabled
      then (0, d)
      else if ltb 1 d.enabled
      then (0, record d1 { enabled = d.enabled - 1; clients = set_enabled d c.id false })
      else if d.enabled == 0
      then (neg einval, d1)
      else disable_last d1 c.id

  -- lwis_release_client: cleaning up a client does not fail.
  unfoldable pub lwis_release_client : LifeDevice Hw → ℕ → LifeDevice Hw
  unfolding del_client
  lwis_release_client d id = record d {
    clients = del_client d.clients id;
    hw = api.cleanup_client d.hw id;
  }

  -- Releasing power if the client was closed without disabling the device.
  unfoldable pub release_power : Bool → LifeDevice Hw → ℕ × LifeDevice Hw
  release_power was_enabled d =
      let (ret, hw1) = api.power_down d.hw in
      if was_enabled && ltb 0 d.enabled
      then (if d.enabled == 1
          then (ret, record d { enabled = 0; hw = hw1 })
          else (0, record d { enabled = d.enabled - 1 }))
      else (0, d)

  -- What is given up when no client has the device enabled.
  unfoldable pub finish_release : LifeDevice Hw → LifeDevice Hw
  finish_release d =
      let hw1 = if d.bts_supported then api.platform_update_bts d.hw else d.hw in
      let hw2 = api.device_event_states_clear (api.platform_remove_qos hw1) in
      if d.enabled == 0 then record d { hw = run_close api.close hw2 } else d

  unfoldable pub lwis_release : LifeDevice Hw → OpenClient → ℕ × LifeDevice Hw
  unfolding lwis_release_client release_power finish_release
  lwis_release d c =
      let (ret, d1) = release_power c.is_enabled (lwis_release_client d c.id) in
      (ret, finish_release d1)
