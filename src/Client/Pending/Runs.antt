-- ===== src/Client/Pending/Runs.antt =====
-- lwis_pending_events_emit: round after round, with an endless transaction.
use google_lwis.Prelude.{
  ℕ, zero, suc, ◌+◌, ◌<◌, ◌≡◌, refl, sym, subst, ap, ◌∙◌, Bool, true, false, none, some, List, [],
  ◌∷◌, arith, add64, nonzero, ◌==◌, ◌&&◌, if◌then◌else◌,
}
use google_lwis.Kernel.{Kernel, World, lwis_get_time}
use google_lwis.Io.{Bus}
use google_lwis.Event.{EventInfo, Payload, every_time}
use google_lwis.Event.States.{DeviceEventState, lwis_device_event_state_find}
use google_lwis.Transaction.{Transaction}
use google_lwis.Transaction.Trigger.{device_type_i2c}
use google_lwis.Device.{Device}
use google_lwis.Client.{Client, Host, wants}
use google_lwis.Client.Emit.{
  event_info, queue_event, trigger_client, notify_clients, lwis_device_event_emit_impl,
  notify_event_subscriber, save_device_event_state_to_history,
}
use google_lwis.Client.Emit.Delivery.{states-kept, counted}
use google_lwis.Client.Pending.{emit_loop, lwis_pending_events_emit}
use google_lwis.Client.Pending.Endless.{IsEndless, Only, Waits, trigger-Only}

module _ (k : Kernel) {Hw : Type 0} (bus : Bus Hw) (in_irq : Bool) where
  module _ (dev_type : ℕ) (not_i2c : (in_irq && dev_type == device_type_i2c) ≡ false) where
    -- One client, which waits with the transaction and does not queue the event.
    abbrev pub Quiet : List Client → ℕ → Transaction → Type 0
    Quiet cs event_id t =
        (c : Client) × (cs ≡ c ∷ [])
        × (wants c event_id ≡ false)
        × Waits k bus in_irq dev_type not_i2c c.transactions event_id t

    one-Quiet :
        (w : World Hw) (e : EventInfo) (c : Client) (t : Transaction)
        → ((n : ℕ) → k.alloc n ≡ true)
        → IsEndless k bus in_irq t e.event_id
        → e.event_counter < every_time
        → wants c e.event_id ≡ false
        → Waits k bus in_irq dev_type not_i2c c.transactions e.event_id t
        → let r = notify_clients k bus in_irq w [] dev_type e [] (c ∷ []) in
          Quiet r.1 e.event_id t × Only e.event_id r.2
    unfolding notify_clients queue_event trigger_client
    one-Quiet w e c t plenty endless early quiet waits =
        let (still, only) =
          trigger-Only k bus in_irq dev_type not_i2c c.transactions t e.event_id e.event_counter
            (record { world = w; pending = []; debug_info = c.transactions.debug_info }) plenty
            endless early refl waits in
        rw (quiet, queue_event) ((_, refl, quiet, still), only)

    notify-Quiet :
        (w : World Hw) (e : EventInfo) (dev : ℕ) (cs : List Client) (t : Transaction)
        → ((n : ℕ) → k.alloc n ≡ true)
        → IsEndless k bus in_irq t e.event_id
        → e.event_counter < every_time
        → dev ≡ dev_type
        → Quiet cs e.event_id t
        → let r = notify_clients k bus in_irq w [] dev e [] cs in
          Quiet r.1 e.event_id t × Only e.event_id r.2
    notify-Quiet w e dev cs t plenty endless early same (c, one, quiet, waits) =
        let Good : ℕ → List Client → Type 0 = λ d l.
          let r = notify_clients k bus in_irq w [] d e [] l in
          Quiet r.1 e.event_id t × Only e.event_id r.2 in
        subst (λ d. Good d cs) (sym same)
          (subst (Good dev_type) (sym one) (one-Quiet w e c t plenty endless early quiet waits))

    type-kept :
        (w : World Hw) (d : Device) (s : DeviceEventState) (timestamp event_id counter : ℕ)
        (has_subscriber : Bool)
        → (if has_subscriber
            then (notify_event_subscriber k w
                (save_device_event_state_to_history d s timestamp)
                event_id
                counter
                timestamp).0
            else save_device_event_state_to_history d s timestamp).dev_type
          ≡ d.dev_type
    unfolding notify_event_subscriber save_device_event_state_to_history
    type-kept w d s timestamp event_id counter has_subscriber = ground arith

    -- What every round finds: the client as above, and a counter of the event that has room.
    pub record IsStuck (h : Host Hw) (event_id n : ℕ) (t : Transaction) : Type 0 where
      pub dev : h.device.dev_type ≡ dev_type
      pub clients : Quiet h.clients event_id t
      pub state : DeviceEventState
      pub known : lwis_device_event_state_find h.device.event_states event_id ≡ some state
      pub counter : state.event_counter ≡ n

    impl-IsStuck :
        (h : Host Hw) (event_id n : ℕ) (t : Transaction) (payload : Payload) (size : ℕ)
        → ((n : ℕ) → k.alloc n ≡ true)
        → IsEndless k bus in_irq t event_id
        → n + 1 < every_time
        → IsStuck h event_id n t
        → let r = lwis_device_event_emit_impl k bus in_irq h event_id payload size [] in
          IsStuck r.1 event_id (n + 1) t × Only event_id r.2
    unfolding lwis_device_event_emit_impl
    impl-IsStuck h event_id n t payload size plenty endless early stuck =
        let s = stuck.state in
        let counter = add64 s.event_counter 1 in
        let w1 = (lwis_get_time k h.world).1 in
        let next : counter ≡ n + 1 = omega (arith, stuck.counter, early) in
        let (quiet, only) =
          notify-Quiet _ (event_info event_id counter (lwis_get_time k h.world).0 payload size) _
            h.clients t plenty endless (omega (arith, next, early))
            (type-kept w1 _ _ _ _ _ s.has_subscriber ∙ stuck.dev) stuck.clients in
        rw (stuck.known, lwis_device_event_emit_impl)
          (
            record {
              dev = type-kept w1 _ _ _ _ _ s.has_subscriber ∙ stuck.dev;
              clients = quiet;
              state = record s { event_counter = counter };
              known =
                  ap (λ l. lwis_device_event_state_find l event_id)
                    (states-kept k bus in_irq w1 _ _ _ _ _ s.has_subscriber)
                  ∙ counted h.device.event_states s event_id counter stuck.known;
              counter = next;
            },
            only,
          )

    loop-none :
        (fuel return_val : ℕ) (h : Host Hw) (pending : List EventInfo) (event_id n : ℕ)
        (t : Transaction)
        → ((n : ℕ) → k.alloc n ≡ true)
        → IsEndless k bus in_irq t event_id
        → n + fuel < every_time
        → IsStuck h event_id n t
        → Only event_id pending
        → emit_loop k bus in_irq fuel return_val h pending ≡ none
    unfolding emit_loop
    loop-none zero return_val h pending event_id n t plenty endless early stuck (e, one, id) =
        ap (λ p. emit_loop k bus in_irq zero return_val h p) one
    loop-none (suc fuel) return_val h pending event_id n t plenty endless early stuck (e, one, id) =
        let (ret, h', pending') =
          lwis_device_event_emit_impl k bus in_irq h e.event_id e.payload e.payload_size [] in
        let (stuck', only) =
          impl-IsStuck h e.event_id n t e.payload e.payload_size plenty
            (subst (IsEndless k bus in_irq t) (sym id) endless) (omega arith)
            (subst (λ i. IsStuck h i n t) (sym id) stuck) in
        ap (λ p. emit_loop k bus in_irq (suc fuel) return_val h p) one
        ∙ loop-none fuel (if nonzero ret then ret else return_val) h' pending' e.event_id (n + 1) t
            plenty (subst (IsEndless k bus in_irq t) (sym id) endless) (omega arith) stuck' only

    -- Take a device whose only client has one waiting transaction, which runs every time and at
    -- once on its own success event, always succeeds, and is not put off as on an I2C device in
    -- interrupt context, and a client that does not queue that event. If allocations succeed,
    -- emitting the event as a pending one does not end within any number of rounds for which the
    -- counter of the event has room.
    pub pending_events_emit_endless :
        (fuel : ℕ) (h : Host Hw) (e : EventInfo) (n : ℕ) (t : Transaction)
        → ((n : ℕ) → k.alloc n ≡ true)
        → IsEndless k bus in_irq t e.event_id
        → n + fuel < every_time
        → IsStuck h e.event_id n t
        → lwis_pending_events_emit k bus in_irq fuel h (e ∷ []) ≡ none
    unfolding lwis_pending_events_emit
    pending_events_emit_endless fuel h e n t plenty endless early stuck =
        loop-none fuel 0 h (e ∷ []) e.event_id n t plenty endless early stuck (e, refl, refl)
