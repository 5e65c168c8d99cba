-- ===== src/Subscription/Control.antt =====
-- lwis_event.c: the event flags of a client and its subscriptions to events of other devices.
pub mod Counted
pub mod Keeps
use google_lwis.Prelude.{
  ℕ, Bool, true, false, not, ◌&&◌, ◌||◌, Option, none, some, List, [], ◌∷◌, ◌++◌, neg, nonzero,
  ◌==◌, if◌then◌else◌,
}
use google_lwis.Kernel.{Kernel, World, einval, enomem, eperm}
use google_lwis.Io.{Vops}
use google_lwis.Event.{get_trigger_device_id, is_transaction_event, is_failure_event}
use google_lwis.Event.States.{
  EventControl, client_key, device_key, lwis_client_event_state_find_or_create,
  lwis_device_event_state_find_or_create,
}
use google_lwis.Event.States.Table.{modify}
use google_lwis.Device.{Device, lwis_device_event_flags_updated}
use google_lwis.Subscription.{
  Devices, Top, put, lwis_find_dev_by_id, lwis_top_event_subscribe, lwis_top_event_unsubscribe,
}

-- What a client's call can change: the devices, the top device, which is not there at `none`, the
-- event states of the client, and the world.
pub record Core (Hw : Type 0) : Type 0 where
  pub world : World Hw
  pub devices : Devices
  pub top_dev : Option Top
  pub event_states : List EventControl

abbrev pub device_type_top : ℕ
device_type_top = 0

-- The flags of a client for an event are replaced.
abbrev pub set_flags : List EventControl → ℕ → ℕ → List EventControl
set_flags table event_id flags = modify client_key table event_id (λ s. record s { flags = flags })

module _ (k : Kernel) (bucket : ℕ → ℕ) {Hw : Type 0} (v : Vops Hw) where
  -- lwis_device_event_state_find_or_create of a device, and lwis_client_event_state_find_or_create:
  -- whether there is a state now.
  unfoldable pub add_state : Core Hw → ℕ → ℕ → Bool × Core Hw
  add_state c dev_id event_id = elim (lwis_find_dev_by_id c.devices dev_id) [
    | none ↦ (false, c)
    | some d ↦
        (let (state, table, w) =
            lwis_device_event_state_find_or_create k c.world d.event_states event_id in
          (
            elim state [ none ↦ false | some _ ↦ true ],
            record c {
              world = w;
              devices = put c.devices dev_id (record d { event_states = table });
            },
          ))
  ]

  unfoldable pub add_client_state : Core Hw → ℕ → Bool × Core Hw
  add_client_state c event_id =
      let (state, table, w) =
        lwis_client_event_state_find_or_create k c.world c.event_states event_id in
      (elim state [ none ↦ false | some _ ↦ true ], record c { world = w; event_states = table })

  -- The three states, each created only if the one before it was.
  unfoldable pub create_states : Core Hw → ℕ → ℕ → Bool × Core Hw
  unfolding add_state add_client_state
  create_states c event_id trigger_id =
      let (own_done, c1) = add_state c c.devices.own.id event_id in
      let (client_done, c2) = add_client_state c1 event_id in
      let (trigger_done, c3) = add_state c2 trigger_id event_id in
      if not own_done
      then (false, c1)
      else if not client_done
      then (false, c2)
      else (trigger_done, c3)

  -- What follows where the top device and the trigger device are there.
  unfoldable pub subscribe_to : Core Hw → Top → ℕ → ℕ → ℕ × Core Hw
  unfolding create_states
  subscribe_to c top event_id trigger_id =
      let (done, c') = create_states c event_id trigger_id in
      let (ret, devices, top', w) =
        lwis_top_event_subscribe k c'.world c'.devices top event_id trigger_id c.devices.own.id in
      if done
      then (ret, record c' { world = w; devices = devices; top_dev = some top' })
      else (neg einval, c')

  unfoldable pub lwis_client_event_subscribe : Core Hw → ℕ → ℕ × Core Hw
  unfolding subscribe_to
  lwis_client_event_subscribe c event_id =
      let trigger_id = get_trigger_device_id event_id in
      elim c.top_dev [
        | none ↦ (neg einval, c)
        | some top ↦
            (if is_transaction_event event_id || is_failure_event event_id
              then (neg einval, c)
              else (elim (lwis_find_dev_by_id c.devices trigger_id) [
                | none ↦ (neg einval, c)
                | some _ ↦ subscribe_to c top event_id trigger_id
              ]))
      ]

  -- `none` where lwis_top_event_unsubscribe uses a pointer that it has not set.
  unfoldable pub lwis_client_event_unsubscribe : Core Hw → ℕ → Option (ℕ × Core Hw)
  lwis_client_event_unsubscribe c event_id = elim c.top_dev [
    | none ↦ some (neg einval, c)
    | some top ↦ (elim (lwis_top_event_unsubscribe bucket c.devices top event_id c.devices.own.id) [
      | none ↦ none
      | some (ret, ds, top') ↦ some (
        ret,
        record c {
          devices = record ds {
            own = record (ds.own) {
              event_states =
                  modify device_key ds.own.event_states event_id
                    (λ s. record s { event_counter = 0 });
            };
          };
          top_dev = some top';
        },
      )
    ])
  ]

  -- The part of lwis_client_event_control_set for an event of another device.
  unfoldable pub update_subscription : Core Hw → ℕ → ℕ → Option (ℕ × Core Hw)
  unfolding lwis_client_event_subscribe lwis_client_event_unsubscribe
  update_subscription c event_id new_flags =
      if get_trigger_device_id event_id == c.devices.own.id
      then some (0, c)
      else if c.devices.own.dev_type == device_type_top
      then some (neg eperm, c)
      else if new_flags == 0
      then lwis_client_event_unsubscribe c event_id
      else some (lwis_client_event_subscribe c event_id)

  -- The flags are stored before the device is updated.
  unfoldable pub change_flags : Core Hw → ℕ → ℕ → ℕ → Option (ℕ × Core Hw)
  unfolding update_subscription
  change_flags c event_id old_flags new_flags =
      let (ret, own, w) =
        lwis_device_event_flags_updated k v c.world c.devices.own event_id old_flags new_flags in
      let c' = record c {
        world = w;
        devices = record (c.devices) { own = own };
        event_states = set_flags c.event_states event_id new_flags;
      } in
      if nonzero ret then some (ret, c') else update_subscription c' event_id new_flags

  unfoldable pub lwis_client_event_control_set : Core Hw → EventControl → Option (ℕ × Core Hw)
  unfolding change_flags
  lwis_client_event_control_set c control =
      let (state, table, w) =
        lwis_client_event_state_find_or_create k c.world c.event_states control.event_id in
      let c' = record c { world = w; event_states = table } in
      elim state [
        | none ↦ some (neg enomem, c')
        | some s ↦
            (if s.flags == control.flags
              then some (0, c')
              else change_flags c' control.event_id s.flags control.flags)
      ]

  -- `control->flags` is set where the result has `some`.
  unfoldable pub lwis_client_event_control_get : Core Hw → ℕ → ℕ × Option ℕ × Core Hw
  lwis_client_event_control_get c event_id =
      let (state, table, w) =
        lwis_client_event_state_find_or_create k c.world c.event_states event_id in
      let c' = record c { world = w; event_states = table } in
      elim state [ none ↦ (neg enomem, none, c') | some s ↦ (0, some s.flags, c') ]

  -- The events of a list, one after the other, as their states are taken off the table.
  clear_each : World Hw → Device → List EventControl → Device × World Hw
  clear_each w d [] = (d, w)
  clear_each w d (s ∷ ss) =
      let (_, d', w') = lwis_device_event_flags_updated k v w d s.event_id s.flags 0 in
      clear_each w' d' ss

  -- The order in which the whole hash table is walked is that of a permutation.
  unfoldable pub lwis_client_event_states_clear :
      (List EventControl → List EventControl) → Core Hw → Core Hw
  unfolding clear_each
  lwis_client_event_states_clear order c =
      let (own, w) = clear_each c.world c.devices.own (order c.event_states) in
      record c { world = w; devices = record (c.devices) { own = own }; event_states = [] }
