-- ===== src/Subscription/Control/Keeps.antt =====
-- What subscribing and unsubscribing do to the enable counters of the client's own device, and to the
-- enable flags of the client.
use google_lwis.Prelude.{
  ℕ, ◌≡◌, refl, ◌∙◌, inl, inr, Bool, true, false, not, none, some, List, [], arith, ◌==◌,
  if◌then◌else◌, if-cases, Bool-cases, Option-cases,
}
use google_lwis.Kernel.{Kernel, World}
use google_lwis.Io.{Vops}
use google_lwis.Event.{irq_enable, get_trigger_device_id}
use google_lwis.Event.States.{
  EventControl, DeviceEventState, client_key, device_key, lwis_device_event_state_find_or_create,
  lwis_client_event_state_find_or_create,
}
use google_lwis.Event.States.Table.{find, find-modify, key-find}
use google_lwis.Device.{Device}
use google_lwis.Device.Flags.{counter_of, counter_of-created}
use google_lwis.Subscription.{
  Devices, Top, put, id_key, scan, lwis_find_dev_by_id, lwis_device_event_update_subscriber,
  subscribe_found, lwis_top_event_subscribe, lwis_top_event_unsubscribe,
}
use google_lwis.Subscription.Control.{
  Core, device_type_top, set_flags, add_state, add_client_state, create_states, subscribe_to,
  lwis_client_event_subscribe, lwis_client_event_unsubscribe, update_subscription,
}

-- Whether a client has set the enable flag of an event.
abbrev pub enables : List EventControl → ℕ → Bool
enables table event_id = elim (find client_key table event_id) [
  | none ↦ false
  | some s ↦ irq_enable s.flags
]

-- Two devices with the same enable counters.
abbrev pub SameCounters : Device → Device → Type 0
SameCounters d d' = (e : ℕ) → counter_of d'.event_states e ≡ counter_of d.event_states e

-- Two states in which the own device has the same counters and the client the same enable flags.
abbrev pub Keeps : {Hw : Type 0} → Core Hw → Core Hw → Type 0
Keeps c c' =
    SameCounters (c.devices.own) (c'.devices.own)
    × ((e : ℕ) → enables c'.event_states e ≡ enables c.event_states e)

pub put-SameCounters :
    (ds : Devices) (id : ℕ) (d d' : Device)
    → lwis_find_dev_by_id ds id ≡ some d
    → SameCounters d d'
    → SameCounters (ds.own) ((put ds id d').own)
unfolding lwis_find_dev_by_id
put-SameCounters ds id d d' found same e = ground (arith, same e)

counter_of-update_subscriber :
    (d : Device) (id : ℕ) (has : Bool)
    → SameCounters d (lwis_device_event_update_subscriber d id has).1
unfolding lwis_device_event_update_subscriber
counter_of-update_subscriber d id has e = ground (
  arith,
  find-modify device_key d.event_states id e
      (λ (s : DeviceEventState). record s { has_subscriber = has }) (λ s. refl),
)

module _ (k : Kernel) (bucket : ℕ → ℕ) {Hw : Type 0} (v : Vops Hw) where
  pub enables-created :
      (w : World Hw) (table : List EventControl) (id e : ℕ)
      → enables (lwis_client_event_state_find_or_create k w table id).1 e ≡ enables table e
  unfolding lwis_client_event_state_find_or_create find
  enables-created w table id e = ground arith

  pub enables-set_flags :
      (table : List EventControl) (id flags e : ℕ) (s : EventControl)
      → find client_key table id ≡ some s
      → enables (set_flags table id flags) e
        ≡ (if id == e then irq_enable flags else enables table e)
  enables-set_flags table id flags e s found = ground (
    arith,
    find-modify client_key table id e (λ (s : EventControl). record s { flags = flags })
        (λ s. refl),
  )

  Keeps-refl : (c : Core Hw) → Keeps c c
  Keeps-refl c = (λ e. refl, λ e. refl)

  Keeps-trans : (a b c : Core Hw) → Keeps a b → Keeps b c → Keeps a c
  Keeps-trans a b c ab bc = (λ e. bc.0 e ∙ ab.0 e, λ e. bc.1 e ∙ ab.1 e)

  add_state-Keeps : (c : Core Hw) (dev_id id : ℕ) → Keeps c (add_state k bucket v c dev_id id).1
  unfolding add_state
  add_state-Keeps c dev_id id = elim (Option-cases (lwis_find_dev_by_id c.devices dev_id)) [
    | inl missing ↦ (λ e. ground arith, λ e. ground arith)
    | inr (d, there) ↦ (
      λ e. ground (
        arith,
        put-SameCounters c.devices dev_id d
            (record d {
              event_states = (lwis_device_event_state_find_or_create k c.world d.event_states id).1;
            })
            there (λ e. counter_of-created k v c.world d.event_states id e) e,
      ),
      λ e. ground arith,
    )
  ]

  add_client_state-Keeps : (c : Core Hw) (id : ℕ) → Keeps c (add_client_state k bucket v c id).1
  unfolding add_client_state
  add_client_state-Keeps c id = (λ e. refl, λ e. enables-created c.world c.event_states id e)

  create_states-Keeps :
      (c : Core Hw) (id trigger_id : ℕ) → Keeps c (create_states k bucket v c id trigger_id).1
  unfolding create_states
  create_states-Keeps c id trigger_id =
      let c1 = (add_state k bucket v c c.devices.own.id id).1 in
      let c2 = (add_client_state k bucket v c1 id).1 in
      let c3 = (add_state k bucket v c2 trigger_id id).1 in
      let k1 = add_state-Keeps c c.devices.own.id id in
      let k2 = Keeps-trans c c1 c2 k1 (add_client_state-Keeps c1 id) in
      let k3 = Keeps-trans c c2 c3 k2 (add_state-Keeps c2 trigger_id id) in
      if-cases (λ (r : Bool × Core Hw). Keeps c r.1)
        (not (add_state k bucket v c c.devices.own.id id).0) (λ _. k1)
        (λ _.
          if-cases (λ (r : Bool × Core Hw). Keeps c r.1) (not (add_client_state k bucket v c1 id).0)
            (λ _. k2) (λ _. k3))

  subscribe_found-SameCounters :
      (w : World Hw) (ds : Devices) (top : Top) (id : ℕ) (trigger receiver : Device)
      → lwis_find_dev_by_id ds trigger.id ≡ some trigger
      → SameCounters (ds.own) ((subscribe_found k w ds top id trigger receiver).1.own)
  unfolding subscribe_found
  subscribe_found-SameCounters w ds top id trigger receiver there e =
      let same = λ (has : Bool).
        put-SameCounters ds trigger.id trigger
          (lwis_device_event_update_subscriber trigger id has).1 there
          (counter_of-update_subscriber trigger id has) e in
      ground (arith, same true, same false)

  found_again :
      (ds : Devices) (id : ℕ) (d : Device)
      → lwis_find_dev_by_id ds id ≡ some d
      → lwis_find_dev_by_id ds d.id ≡ some d
  unfolding lwis_find_dev_by_id
  found_again ds id d there = elim (Bool-cases (ds.own.id == id)) [
    | inl here ↦ ground arith
    | inr away ↦ ground (arith, key-find id_key ds.others id d (ground arith))
  ]

  top_subscribe-SameCounters :
      (w : World Hw) (ds : Devices) (top : Top) (id trigger_id receiver_id : ℕ)
      → SameCounters
          (ds.own)
          ((lwis_top_event_subscribe k w ds top id trigger_id receiver_id).1.own)
  unfolding lwis_top_event_subscribe
  top_subscribe-SameCounters w ds top id trigger_id receiver_id e =
      elim (Option-cases (lwis_find_dev_by_id ds trigger_id)) [
        | inl missing ↦ ground arith
        | inr (trigger, there) ↦ (elim (Option-cases (lwis_find_dev_by_id ds receiver_id)) [
          | inl lost ↦ ground arith
          | inr (receiver, here) ↦ ground (
            arith,
            subscribe_found-SameCounters w ds top id trigger receiver
                (found_again ds trigger_id trigger there) e,
          )
        ])
      ]

  subscribe_to-Keeps :
      (c : Core Hw) (top : Top) (id trigger_id : ℕ)
      → Keeps c (subscribe_to k bucket v c top id trigger_id).1
  unfolding subscribe_to
  subscribe_to-Keeps c top id trigger_id =
      let c' = (create_states k bucket v c id trigger_id).1 in
      let made = create_states-Keeps c id trigger_id in
      (
        λ e. ground (
          arith,
          made.0 e,
          top_subscribe-SameCounters c'.world c'.devices top id trigger_id c.devices.own.id e,
        ),
        λ e. ground (arith, made.1 e),
      )

  client_subscribe-Keeps :
      (c : Core Hw) (id : ℕ) → Keeps c (lwis_client_event_subscribe k bucket v c id).1
  unfolding lwis_client_event_subscribe
  client_subscribe-Keeps c id = elim (Option-cases c.top_dev) [
    | inl missing ↦ (λ e. ground arith, λ e. ground arith)
    | inr (top, there) ↦
        let made = subscribe_to-Keeps c top id (get_trigger_device_id id) in
        (λ e. ground (arith, made.0 e), λ e. ground (arith, made.1 e))
  ]

  top_unsubscribe-SameCounters :
      (ds ds' : Devices) (top top' : Top) (id receiver ret : ℕ)
      → lwis_top_event_unsubscribe bucket ds top id receiver ≡ some (ret, ds', top')
      → SameCounters (ds.own) (ds'.own)
  unfolding lwis_top_event_unsubscribe
  top_unsubscribe-SameCounters ds ds' top top' id receiver ret e x =
      let s =
        scan bucket
          (record { kept = []; pending = top.emitted; trigger_dev = none; has_subscriber = false })
          top.event_subscriber id receiver in
      elim (Option-cases s.trigger_dev) [
        | inl unset ↦ ground arith
        | inr (dev_id, set) ↦ (elim (Option-cases (lwis_find_dev_by_id ds dev_id)) [
          | inl missing ↦ ground arith
          | inr (trigger, there) ↦ ground (
            arith,
            put-SameCounters ds dev_id trigger
                (lwis_device_event_update_subscriber trigger id s.has_subscriber).1 there
                (counter_of-update_subscriber trigger id s.has_subscriber) x,
          )
        ])
      ]

  client_unsubscribe-Keeps :
      (c c' : Core Hw) (id ret : ℕ)
      → lwis_client_event_unsubscribe k bucket v c id ≡ some (ret, c')
      → Keeps c c'
  unfolding lwis_client_event_unsubscribe
  client_unsubscribe-Keeps c c' id ret e = elim (Option-cases c.top_dev) [
    | inl missing ↦ (λ x. ground arith, λ x. ground arith)
    | inr (top, there) ↦
        (elim (Option-cases (lwis_top_event_unsubscribe bucket c.devices top id c.devices.own.id)) [
          | inl undefined ↦ (λ x. ground arith, λ x. ground arith)
          | inr ((ret', ds, top'), done) ↦ (
            λ x. ground (
              arith,
              top_unsubscribe-SameCounters c.devices ds top top' id c.devices.own.id ret' done x,
              find-modify device_key ds.own.event_states id x
                  (λ (s : DeviceEventState). record s { event_counter = 0 }) (λ s. refl),
            ),
            λ x. ground arith,
          )
        ])
  ]

  pub update_subscription-Keeps :
      (c c' : Core Hw) (id new_flags ret : ℕ)
      → update_subscription k bucket v c id new_flags ≡ some (ret, c')
      → Keeps c c'
  unfolding update_subscription
  update_subscription-Keeps c c' id new_flags ret e =
      let subscribed = client_subscribe-Keeps c id in
      elim (Bool-cases (get_trigger_device_id id == c.devices.own.id)) [
        | inl local ↦ (λ x. ground arith, λ x. ground arith)
        | inr foreign ↦ (elim (Bool-cases (c.devices.own.dev_type == device_type_top)) [
          | inl top ↦ (λ x. ground arith, λ x. ground arith)
          | inr plain ↦ (elim (Bool-cases (new_flags == 0)) [
            | inl off ↦ client_unsubscribe-Keeps c c' id ret (ground arith)
            | inr on ↦ (λ x. ground (arith, subscribed.0 x), λ x. ground (arith, subscribed.1 x))
          ])
        ])
      ]
