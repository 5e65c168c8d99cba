-- ===== src/Client/Emit.antt =====
-- lwis_event.c: emitting an event of a device to its clients, and emitting an error.
pub mod Delivery
use google_lwis.Prelude.{
  ℕ, ◌+◌, Bool, not, ◌||◌, none, some, List, [], ◌∷◌, ◌++◌, neg, nonzero, add64, slt64, leb,
  if◌then◌else◌, set, ◌==◌,
}
use google_lwis.Kernel.{Kernel, World, kmalloc, lwis_get_time, einval, enomem, eoverflow}
use google_lwis.Io.{Bus}
use google_lwis.Event.{
  EventInfo, Payload, null, start_of_error_range, start_of_specialized_range, event_queue_overflow,
}
use google_lwis.Event.Queue.{push_back}
use google_lwis.Event.States.{DeviceEventState, device_key, lwis_device_event_state_find}
use google_lwis.Event.States.Table.{modify}
use google_lwis.Device.{Device, EventHistory, TriggerEvent}
use google_lwis.Transaction.Trigger.{lwis_transaction_event_trigger}
use google_lwis.Client.{Client, Host, wants}

abbrev pub event_debug_history_size : ℕ
event_debug_history_size = 16

unfoldable pub save_device_event_state_to_history : Device → DeviceEventState → ℕ → Device
save_device_event_state_to_history d state timestamp =
    let entry : EventHistory = record { state = state; timestamp = timestamp } in
    let next = d.cur_event_hist_idx + 1 in
    record d {
      event_hist = set d.event_hist d.cur_event_hist_idx entry;
      cur_event_hist_idx = if leb event_debug_history_size next then 0 else next;
    }

abbrev pub event_info : ℕ → ℕ → ℕ → Payload → ℕ → EventInfo
event_info event_id event_counter timestamp payload payload_size = record {
  event_id = event_id;
  event_counter = event_counter;
  timestamp_ns = timestamp;
  payload_size = payload_size;
  payload = if payload_size == 0 then null else payload;
}

module _ (k : Kernel) {Hw : Type 0} where
  -- The loop of lwis_device_error_event_emit. It ends at the first client that cannot be told.
  unfoldable pub push_errors : World Hw → EventInfo → List Client → List Client × World Hw
  push_errors w e [] = ([], w)
  push_errors w e (c ∷ cs) =
      let (done, w1) = kmalloc k w in
      let (ret, q) = push_back c.error_event_queue e in
      let (cs', w2) = push_errors w1 e cs in
      if not done || nonzero ret
      then (c ∷ cs, w1)
      else (record c { error_event_queue = q } ∷ cs', w2)

  unfoldable pub lwis_device_error_event_emit :
      World Hw → List Client → ℕ → Payload → ℕ → List Client × World Hw
  unfolding push_errors
  lwis_device_error_event_emit w clients event_id payload payload_size =
      if slt64 event_id start_of_error_range || not (slt64 event_id start_of_specialized_range)
      then (clients, w)
      else let (timestamp, w1) = lwis_get_time k w in
        push_errors w1 (event_info event_id 0 timestamp payload payload_size) clients

  -- lwis_top_event_notify. The tasklet of the top device is scheduled, which is not modelled.
  unfoldable pub notify_event_subscriber : World Hw → Device → ℕ → ℕ → ℕ → Device × World Hw
  notify_event_subscriber w d event_id event_counter timestamp =
      let (done, w1) = kmalloc k w in
      let trigger_event : TriggerEvent = record {
        trigger_event_id = event_id;
        trigger_event_count = event_counter;
        trigger_event_timestamp = timestamp;
      } in
      (if done then record d { emitted = d.emitted ++ trigger_event ∷ [] } else d, w1)

  -- Queueing an event for one client, if it wants it: the code, 0 if there was nothing to do.
  unfoldable pub queue_event : World Hw → Client → EventInfo → ℕ × Client × World Hw
  queue_event w c e =
      let (done, w1) = kmalloc k w in
      let (ret, q) = push_back c.event_queue e in
      if not (wants c e.event_id)
      then (0, c, w)
      else if not done
      then (neg enomem, c, w1)
      else (ret, record c { event_queue = q }, w1)

module _ (k : Kernel) {Hw : Type 0} (bus : Bus Hw) (in_irq : Bool) where
  -- Triggering the transactions of one client: the client afterwards, the pending events and the world.
  unfoldable pub trigger_client :
      World Hw → List EventInfo → ℕ → Client → EventInfo → Client × List EventInfo × World Hw
  trigger_client w pending dev_type c e =
      let (t, job) =
        lwis_transaction_event_trigger k bus dev_type in_irq c.transactions e.event_id
          e.event_counter
          (record { world = w; pending = pending; debug_info = c.transactions.debug_info }) in
      (record c { transactions = t }, job.pending, job.world)

  -- The loop over the clients, with those before in `before`. It ends at the first client whose event
  -- cannot be queued; an overflow of its queue is reported to all clients as an error event.
  unfoldable pub notify_clients :
      World Hw
      → List EventInfo
      → ℕ
      → EventInfo
      → List Client
      → List Client
      → ℕ × List Client × List EventInfo × World Hw
  unfolding trigger_client queue_event
  notify_clients w pending dev_type e before [] = (0, before, pending, w)
  notify_clients w pending dev_type e before (c ∷ cs) =
      let (ret, c1, w1) = queue_event k w c e in
      let (c2, pending2, w2) = trigger_client w1 pending dev_type c1 e in
      let rest = notify_clients w2 pending2 dev_type e (before ++ c2 ∷ []) cs in
      let all = before ++ c ∷ cs in
      let (told, w3) = lwis_device_error_event_emit k w1 all event_queue_overflow null 0 in
      if ret == 0
      then rest
      else if ret == neg eoverflow
      then (ret, told, pending, w3)
      else (ret, all, pending, w1)

  -- An event without a state is refused. No table of virtual functions sets `vops.event_emitted`,
  -- so its call is left out.
  unfoldable pub lwis_device_event_emit_impl :
      Host Hw → ℕ → Payload → ℕ → List EventInfo → ℕ × Host Hw × List EventInfo
  unfolding notify_clients save_device_event_state_to_history notify_event_subscriber
  lwis_device_event_emit_impl h event_id payload payload_size pending =
      elim (lwis_device_event_state_find h.device.event_states event_id) [
        | none ↦ (neg einval, h, pending)
        | some s ↦
            (let counter = add64 s.event_counter 1 in
              let s' = record s { event_counter = counter } in
              let (timestamp, w1) = lwis_get_time k h.world in
              let d1 =
                save_device_event_state_to_history
                  (record (h.device) {
                    event_states =
                        modify device_key h.device.event_states event_id
                          (λ x. record x { event_counter = counter });
                  })
                  s' timestamp in
              let (d2, w2) = notify_event_subscriber k w1 d1 event_id counter timestamp in
              let device = if s.has_subscriber then d2 else d1 in
              let world = if s.has_subscriber then w2 else w1 in
              let (ret, clients, pending', w3) =
                notify_clients world pending device.dev_type
                  (event_info event_id counter timestamp payload payload_size) [] h.clients in
              (ret, record { world = w3; device = device; clients = clients }, pending'))
      ]
