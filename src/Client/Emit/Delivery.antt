-- ===== src/Client/Emit/Delivery.antt =====
-- lwis_device_event_emit_impl: which queues an event reaches.
use google_lwis.Prelude.{
  ℕ, ◌<◌, ◌≡◌, refl, ap, ◌∙◌, append-nil, append_assoc, Bool, true, some, List, [], ◌∷◌, ◌++◌,
  arith, add64, ◌==◌, if◌then◌else◌, if-cases, All,
}
use google_lwis.Kernel.{Kernel, World, lwis_get_time}
use google_lwis.Io.{Bus}
use google_lwis.Event.{EventInfo, Payload}
use google_lwis.Event.Queue.{max_num_pending_events, push_back}
use google_lwis.Event.States.{DeviceEventState, device_key, lwis_device_event_state_find}
use google_lwis.Event.States.Table.{find, find-modify, modify}
use google_lwis.Device.{Device}
use google_lwis.Client.{Client, Host, wants}
use google_lwis.Client.Emit.{
  event_info, queue_event, trigger_client, notify_clients, lwis_device_event_emit_impl,
  notify_event_subscriber, save_device_event_state_to_history,
}

abbrev pub HasRoom : ℕ → Client → Type 0
HasRoom event_id c = wants c event_id ≡ true → c.event_queue.size < max_num_pending_events

-- The events that wait for each client, now and after an event was delivered.
abbrev pub queues : List Client → List (List EventInfo)
queues [] = []
queues (c ∷ cs) = c.event_queue.entries ∷ queues cs

abbrev pub with_event : EventInfo → List Client → List (List EventInfo)
with_event e [] = []
with_event e (c ∷ cs) =
    (if wants c e.event_id then c.event_queue.entries ++ e ∷ [] else c.event_queue.entries)
    ∷ with_event e cs

queues-snoc :
    (cs : List Client) (c : Client)
    → queues (cs ++ c ∷ []) ≡ queues cs ++ c.event_queue.entries ∷ []
queues-snoc [] c = refl
queues-snoc (x ∷ cs) c = ap (λ t. x.event_queue.entries ∷ t) (queues-snoc cs c)

pub counted :
    (table : List DeviceEventState) (s : DeviceEventState) (event_id counter : ℕ)
    → find device_key table event_id ≡ some s
    → find device_key
        (modify device_key table event_id (λ x. record x { event_counter = counter }))
        event_id
      ≡ some (record s { event_counter = counter })
counted table s event_id counter there = ground (
  arith,
  find-modify device_key table event_id event_id (λ x. record x { event_counter = counter })
      (λ _. refl),
)

module _ (k : Kernel) {Hw : Type 0} (bus : Bus Hw) (in_irq : Bool) where
  queued :
      (w : World Hw) (c : Client) (e : EventInfo)
      → k.alloc w.calls ≡ true
      → HasRoom e.event_id c
      → let (ret, c', _) = queue_event k w c e in
        (ret ≡ 0)
        × (c'.event_queue.entries ≡ (
            if wants c e.event_id then c.event_queue.entries ++ e ∷ [] else c.event_queue.entries))
  unfolding queue_event push_back
  queued w c e plenty room = ground arith

  trigger-queue :
      (w : World Hw) (pending : List EventInfo) (dev_type : ℕ) (c : Client) (e : EventInfo)
      → (trigger_client k bus in_irq w pending dev_type c e).0.event_queue ≡ c.event_queue
  unfolding trigger_client
  trigger-queue w pending dev_type c e = refl

  abbrev pub Delivered :
      List (List EventInfo) → ℕ × List Client × List EventInfo × World Hw → Type 0
  Delivered qs r = (r.0 ≡ 0) × (queues r.1 ≡ qs)

  notify-Delivered :
      (w : World Hw) (pending : List EventInfo) (dev_type : ℕ) (e : EventInfo)
      (before cs : List Client)
      → ((n : ℕ) → k.alloc n ≡ true)
      → All (HasRoom e.event_id) cs
      → Delivered
          (queues before ++ with_event e cs)
          (notify_clients k bus in_irq w pending dev_type e before cs)
  unfolding notify_clients
  notify-Delivered w pending dev_type e before [] plenty room =
      (refl, cc (append-nil (queues before)))
  notify-Delivered w pending dev_type e before (c ∷ cs) plenty room =
      let (ret, c1, w1) = queue_event k w c e in
      let (zero_ret, entries) = queued w c e (plenty w.calls) room.0 in
      let (c2, pending2, w2) = trigger_client k bus in_irq w1 pending dev_type c1 e in
      let (ok, rest) =
        notify-Delivered w2 pending2 dev_type e (before ++ c2 ∷ []) cs plenty room.1 in
      if-cases {A = ℕ × List Client × List EventInfo × World Hw}
        (Delivered (queues before ++ with_event e (c ∷ cs))) (ret == 0)
        (λ _. (
          ok,
          rest
              ∙ ap (λ q. q ++ with_event e cs) (queues-snoc before c2)
              ∙ append_assoc (queues before) (c2.event_queue.entries ∷ []) (with_event e cs)
              ∙ ap (λ q. queues before ++ q ∷ with_event e cs) entries,
        ))
        (λ no. absurd (ground arith))

  -- Neither the history nor the top device changes the event states.
  pub states-kept :
      (w : World Hw) (d : Device) (s : DeviceEventState) (timestamp event_id counter : ℕ)
      (has_subscriber : Bool)
      → (if has_subscriber
          then (notify_event_subscriber k w
              (save_device_event_state_to_history d s timestamp)
              event_id
              counter
              timestamp).0
          else save_device_event_state_to_history d s timestamp).event_states
        ≡ d.event_states
  unfolding notify_event_subscriber save_device_event_state_to_history
  states-kept w d s timestamp event_id counter has_subscriber = ground arith

  -- An event that a device knows and whose emission finds memory and room, reaches exactly the clients
  -- that have enabled its queueing: the result is 0, the counter of the event has moved on by one,
  -- each of those clients has the event, with the new counter and the time of the emission, behind
  -- what was queued, and the queues of all other clients are as they were.
  pub emit_impl-Delivered :
      (h : Host Hw) (s : DeviceEventState) (event_id : ℕ) (payload : Payload) (size : ℕ)
      (pending : List EventInfo)
      → lwis_device_event_state_find h.device.event_states event_id ≡ some s
      → ((n : ℕ) → k.alloc n ≡ true)
      → All (HasRoom event_id) h.clients
      → let (ret, h', _) =
          lwis_device_event_emit_impl k bus in_irq h event_id payload size pending in
        let counter = add64 s.event_counter 1 in
        let e = event_info event_id counter (lwis_get_time k h.world).0 payload size in
        (ret ≡ 0)
        × (queues h'.clients ≡ with_event e h.clients)
        × (lwis_device_event_state_find h'.device.event_states event_id
            ≡ some (record s { event_counter = counter }))
  unfolding lwis_device_event_emit_impl
  emit_impl-Delivered h s event_id payload size pending there plenty room =
      let (ok, reached) =
        notify-Delivered _ pending _
          (event_info event_id (add64 s.event_counter 1) (lwis_get_time k h.world).0 payload size)
          [] h.clients plenty room in
      rw (there, lwis_device_event_emit_impl)
        (
          ok,
          reached,
          ap (λ t. find device_key t event_id)
                (states-kept (lwis_get_time k h.world).1 _ _ _ _ _ s.has_subscriber)
              ∙ counted h.device.event_states s event_id (add64 s.event_counter 1) there,
        )
