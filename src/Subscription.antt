-- ===== src/Subscription.antt =====
-- lwis_device_top.c: subscribing devices to events of other devices; lwis_device.c: finding a device.
pub mod Control
pub mod Laws
use google_lwis.Prelude.{
  ℕ, Bool, true, false, not, ◌&&◌, ◌||◌, Option, none, some, List, [], ◌∷◌, ◌++◌, neg, ◌==◌,
  if◌then◌else◌,
}
use google_lwis.Kernel.{Kernel, World, kmalloc, einval, enomem}
use google_lwis.Event.States.{device_key, lwis_device_event_state_find}
use google_lwis.Event.States.Table.{find, modify}
use google_lwis.Device.{Device, TriggerEvent}

-- `struct lwis_event_subscribe_info`, with the devices by their ids.
pub record Subscription : Type 0 where
  pub event_id : ℕ
  pub receiver_dev : ℕ
  pub trigger_dev : ℕ

-- `struct lwis_top_device`: the hash table, newest entry first, and the emitted events.
pub record Top : Type 0 where
  pub event_subscriber : List Subscription
  pub emitted : List TriggerEvent

-- The list of devices: one of them, which a client has opened, and the others. Ids are unique.
pub record Devices : Type 0 where
  pub own : Device
  pub others : List Device

abbrev pub id_key : Device → ℕ
id_key d = d.id

unfoldable pub lwis_find_dev_by_id : Devices → ℕ → Option Device
lwis_find_dev_by_id ds dev_id =
    if ds.own.id == dev_id then some (ds.own) else find id_key ds.others dev_id

-- A write through the pointer to a device.
abbrev pub put : Devices → ℕ → Device → Devices
put ds dev_id d =
    if ds.own.id == dev_id
    then record ds { own = d }
    else record ds { others = modify id_key ds.others dev_id (λ _. d) }

unfoldable pub lwis_device_event_update_subscriber : Device → ℕ → Bool → ℕ × Device
lwis_device_event_update_subscriber d event_id has_subscriber =
    elim (lwis_device_event_state_find d.event_states event_id) [
      | none ↦ (neg einval, d)
      | some s ↦ (
        0,
        record d {
          event_states =
              modify device_key d.event_states event_id
                (λ s. record s { has_subscriber = has_subscriber });
        },
      )
    ]

-- Whether a subscription is that of a device to an event.
abbrev pub is_subscription : Subscription → ℕ → ℕ → Bool
is_subscription p event_id receiver = p.event_id == event_id && p.receiver_dev == receiver

abbrev pub registered : List Subscription → ℕ → ℕ → Bool
registered [] event_id receiver = false
registered (p ∷ ps) event_id receiver =
    is_subscription p event_id receiver || registered ps event_id receiver

module _ (k : Kernel) {Hw : Type 0} where
  -- The body behind the search for the two devices: the result of the update is returned whatever
  -- happened before.
  unfoldable pub subscribe_found :
      World Hw → Devices → Top → ℕ → Device → Device → ℕ × Devices × Top × World Hw
  unfolding lwis_device_event_update_subscriber
  subscribe_found w ds top event_id trigger receiver =
      let (done, w1) = kmalloc k w in
      let (ret_yes, trigger_yes) = lwis_device_event_update_subscriber trigger event_id true in
      let (ret_no, trigger_no) = lwis_device_event_update_subscriber trigger event_id false in
      let subscription : Subscription = record {
        event_id = event_id;
        receiver_dev = receiver.id;
        trigger_dev = trigger.id;
      } in
      if registered top.event_subscriber event_id receiver.id
      then (ret_yes, put ds trigger.id trigger_yes, top, w)
      else if not done
      then (ret_no, put ds trigger.id trigger_no, top, w1)
      else (
        ret_yes,
        put ds trigger.id trigger_yes,
        record top { event_subscriber = subscription ∷ top.event_subscriber },
        w1,
      )

  unfoldable pub lwis_top_event_subscribe :
      World Hw → Devices → Top → ℕ → ℕ → ℕ → ℕ × Devices × Top × World Hw
  unfolding subscribe_found lwis_find_dev_by_id
  lwis_top_event_subscribe w ds top event_id trigger_id receiver_id =
      elim (lwis_find_dev_by_id ds trigger_id) [
        | none ↦ (neg einval, ds, top, w)
        | some trigger ↦ (elim (lwis_find_dev_by_id ds receiver_id) [
          | none ↦ (neg einval, ds, top, w)
          | some receiver ↦ subscribe_found w ds top event_id trigger receiver
        ])
      ]

-- The pending events less those with an id.
abbrev pub drop_pending : List TriggerEvent → ℕ → List TriggerEvent
drop_pending [] event_id = []
drop_pending (e ∷ es) event_id =
    if e.trigger_event_id == event_id
    then drop_pending es event_id
    else e ∷ drop_pending es event_id

-- The loop's locals: what is left of the table, the pending events, `trigger_dev`, not set at
-- `none`, and `has_subscriber`.
pub record Scan : Type 0 where
  pub kept : List Subscription
  pub pending : List TriggerEvent
  pub trigger_dev : Option ℕ
  pub has_subscriber : Bool

-- The bucket that the kernel's hash function gives an event id is a parameter.
module _ (bucket : ℕ → ℕ) where
  -- The body of the loop, for an entry of the bucket.
  abbrev pub visit : Scan → Subscription → ℕ → ℕ → Scan
  visit s p event_id receiver =
      let pending =
        if p.receiver_dev == receiver then drop_pending s.pending event_id else s.pending in
      if is_subscription p event_id receiver
      then record s { pending = pending; trigger_dev = some p.trigger_dev }
      else if p.event_id == event_id
      then record {
        kept = s.kept ++ p ∷ [];
        pending = pending;
        trigger_dev = some p.trigger_dev;
        has_subscriber = true;
      }
      else record s { kept = s.kept ++ p ∷ []; pending = pending }

  unfoldable pub scan : Scan → List Subscription → ℕ → ℕ → Scan
  scan s [] event_id receiver = s
  scan s (p ∷ ps) event_id receiver =
      if bucket p.event_id == bucket event_id
      then scan (visit s p event_id receiver) ps event_id receiver
      else scan (record s { kept = s.kept ++ p ∷ [] }) ps event_id receiver

  -- `none`: `trigger_dev` is used without having been set.
  unfoldable pub lwis_top_event_unsubscribe : Devices → Top → ℕ → ℕ → Option (ℕ × Devices × Top)
  unfolding scan lwis_device_event_update_subscriber lwis_find_dev_by_id
  lwis_top_event_unsubscribe ds top event_id receiver =
      let s =
        scan
          (record { kept = []; pending = top.emitted; trigger_dev = none; has_subscriber = false })
          top.event_subscriber event_id receiver in
      let top' : Top = record { event_subscriber = s.kept; emitted = s.pending } in
      elim s.trigger_dev [
        | none ↦ none
        | some id ↦ (elim (lwis_find_dev_by_id ds id) [
          | none ↦ none
          | some trigger ↦ some (
            0,
            put ds id (lwis_device_event_update_subscriber trigger event_id s.has_subscriber).1,
            top',
          )
        ])
      ]

-- What the tasklet passes to lwis_device_external_event_emit for one event.
abbrev pub receivers_of : List Subscription → TriggerEvent → List (ℕ × TriggerEvent)
receivers_of [] e = []
receivers_of (p ∷ ps) e =
    if p.event_id == e.trigger_event_id
    then (p.receiver_dev, e) ∷ receivers_of ps e
    else receivers_of ps e

abbrev pub receivers : List Subscription → List TriggerEvent → List (ℕ × TriggerEvent)
receivers ps [] = []
receivers ps (e ∷ es) = receivers_of ps e ++ receivers ps es

-- The calls of lwis_device_external_event_emit in their order, each with its receiver.
unfoldable pub subscribe_tasklet_func : Top → List (ℕ × TriggerEvent) × Top
subscribe_tasklet_func top =
    (receivers top.event_subscriber top.emitted, record top { emitted = [] })

unfoldable pub lwis_top_event_subscribe_clear : Top → Top
lwis_top_event_subscribe_clear top = record { event_subscriber = []; emitted = [] }
