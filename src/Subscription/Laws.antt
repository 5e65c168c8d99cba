-- ===== src/Subscription/Laws.antt =====
-- lwis_top_event_unsubscribe against a description of what it removes.
use google_lwis.Prelude.{
  ℕ, ◌≡◌, refl, sym, ap, ◌∙◌, inl, inr, Bool, false, ◌&&◌, ◌||◌, none, some, List, [], ◌∷◌, ◌++◌,
  arith, append_assoc, append-nil, All, ◌==◌, if◌then◌else◌, Bool-cases,
}
use google_lwis.Device.{Device, TriggerEvent}
use google_lwis.Subscription.{
  Devices, Top, Subscription, Scan, put, lwis_find_dev_by_id, lwis_device_event_update_subscriber,
  is_subscription, drop_pending, visit, scan, lwis_top_event_unsubscribe,
}

-- Whether any device is subscribed to an event.
abbrev pub subscribed : List Subscription → ℕ → Bool
subscribed [] event_id = false
subscribed (p ∷ ps) event_id = p.event_id == event_id || subscribed ps event_id

-- The subscriptions less that of a device to an event.
abbrev pub without : List Subscription → ℕ → ℕ → List Subscription
without [] event_id receiver = []
without (p ∷ ps) event_id receiver =
    if is_subscription p event_id receiver
    then without ps event_id receiver
    else p ∷ without ps event_id receiver

-- Whether a device is subscribed to any event in the bucket of an event.
abbrev pub in_bucket : (ℕ → ℕ) → List Subscription → ℕ → ℕ → Bool
in_bucket bucket [] event_id receiver = false
in_bucket bucket (p ∷ ps) event_id receiver =
    (bucket p.event_id == bucket event_id && p.receiver_dev == receiver)
    || in_bucket bucket ps event_id receiver

-- All subscriptions to an event are to events of one device.
abbrev pub IsFrom : ℕ → ℕ → Subscription → Type 0
IsFrom event_id trigger_id p = p.event_id ≡ event_id → p.trigger_dev ≡ trigger_id

drop_pending-twice :
    (es : List TriggerEvent) (event_id : ℕ)
    → drop_pending (drop_pending es event_id) event_id ≡ drop_pending es event_id
drop_pending-twice [] event_id = refl
drop_pending-twice (e ∷ es) event_id = ground (arith, drop_pending-twice es event_id)

module _ (bucket : ℕ → ℕ) (event_id receiver : ℕ) where
  kept-scan :
      (s : Scan) (ps : List Subscription)
      → (scan bucket s ps event_id receiver).kept ≡ s.kept ++ without ps event_id receiver
  unfolding scan
  kept-scan s [] = sym (append-nil s.kept)
  kept-scan s (p ∷ ps) = ground (
    arith,
    kept-scan (visit bucket s p event_id receiver) ps,
    kept-scan (record s { kept = s.kept ++ p ∷ [] }) ps,
    append_assoc s.kept (p ∷ []) (without ps event_id receiver),
  )

  pending-scan :
      (s : Scan) (ps : List Subscription)
      → (scan bucket s ps event_id receiver).pending ≡ (
          if in_bucket bucket ps event_id receiver
          then drop_pending s.pending event_id
          else s.pending)
  unfolding scan
  pending-scan s [] = refl
  pending-scan s (p ∷ ps) = ground (
    arith,
    pending-scan (visit bucket s p event_id receiver) ps,
    pending-scan (record s { kept = s.kept ++ p ∷ [] }) ps,
    drop_pending-twice s.pending event_id,
  )

  trigger_dev-scan :
      (trigger_id : ℕ) (s : Scan) (ps : List Subscription)
      → All (IsFrom event_id trigger_id) ps
      → (scan bucket s ps event_id receiver).trigger_dev
        ≡ (if subscribed ps event_id then some trigger_id else s.trigger_dev)
  unfolding scan
  trigger_dev-scan trigger_id s [] from = refl
  trigger_dev-scan trigger_id s (p ∷ ps) from = ground (
    arith,
    trigger_dev-scan trigger_id (visit bucket s p event_id receiver) ps from.1,
    trigger_dev-scan trigger_id (record s { kept = s.kept ++ p ∷ [] }) ps from.1,
    from.0,
  )

  has_subscriber-scan :
      (s : Scan) (ps : List Subscription)
      → (scan bucket s ps event_id receiver).has_subscriber
        ≡ (s.has_subscriber || subscribed (without ps event_id receiver) event_id)
  unfolding scan
  has_subscriber-scan s [] = ground arith
  has_subscriber-scan s (p ∷ ps) = ground (
    arith,
    has_subscriber-scan (visit bucket s p event_id receiver) ps,
    has_subscriber-scan (record s { kept = s.kept ++ p ∷ [] }) ps,
  )

  -- Where all subscriptions to an event are to one device, and that device is there,
  -- lwis_top_event_unsubscribe uses a pointer that it has not set exactly if no device is subscribed
  -- to the event. Otherwise it returns 0, it takes the subscription of the receiver to the event, if
  -- there is one, and no other off the table, it marks the event of the trigger device as having
  -- subscribers exactly if another device is still subscribed to it, and it drops the pending
  -- notifications of the event exactly if the receiver is subscribed to an event in the same bucket
  -- of the hash table.
  pub top_unsubscribe-eq :
      (ds : Devices) (top : Top) (trigger : Device)
      → All (IsFrom event_id trigger.id) top.event_subscriber
      → lwis_find_dev_by_id ds trigger.id ≡ some trigger
      → let rest = without top.event_subscriber event_id receiver in
        lwis_top_event_unsubscribe bucket ds top event_id receiver ≡ (
          if subscribed top.event_subscriber event_id
          then some (
            0,
            put ds trigger.id
                (lwis_device_event_update_subscriber trigger event_id (subscribed rest event_id)).1,
            record {
              event_subscriber = rest;
              emitted =
                  if in_bucket bucket top.event_subscriber event_id receiver
                  then drop_pending top.emitted event_id
                  else top.emitted;
            },
          )
          else none)
  unfolding lwis_top_event_unsubscribe
  top_unsubscribe-eq ds top trigger from there =
      let start : Scan = record {
        kept = [];
        pending = top.emitted;
        trigger_dev = none;
        has_subscriber = false;
      } in
      let set = trigger_dev-scan trigger.id start top.event_subscriber from in
      let kept = kept-scan start top.event_subscriber in
      let has = has_subscriber-scan start top.event_subscriber in
      let pending = pending-scan start top.event_subscriber in
      elim (Bool-cases (subscribed top.event_subscriber event_id)) [
        | inl some_device ↦
            let here = set ∙ ap (λ b. if b then some (trigger.id) else none) some_device in
            rw (some_device, lwis_top_event_unsubscribe, here, there, kept, has, pending) refl
        | inr no_device ↦ ground (arith, set)
      ]
