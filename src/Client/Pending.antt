-- ===== src/Client/Pending.antt =====
-- lwis_event.c: emitting an event together with the events that its transactions leave pending, and
-- an event of another device.
pub mod Weight
pub mod Told
pub mod Ends
pub mod Endless
pub mod Runs
use google_lwis.Prelude.{
  ℕ, zero, suc, Bool, true, false, Option, none, some, List, [], ◌∷◌, nonzero, if◌then◌else◌,
}
use google_lwis.Kernel.{Kernel}
use google_lwis.Io.{Bus}
use google_lwis.Event.{EventInfo, Payload, null}
use google_lwis.Event.States.{device_key, lwis_device_event_state_find}
use google_lwis.Event.States.Table.{modify}
use google_lwis.Client.{Host}
use google_lwis.Client.Emit.{event_info, notify_clients, lwis_device_event_emit_impl}

module _ (k : Kernel) {Hw : Type 0} (bus : Bus Hw) (in_irq : Bool) where
  -- The `while` loop on fuel; `none` is out of fuel. The event leaves the list after its emission in
  -- the code; until then the list is only appended to.
  unfoldable pub emit_loop : ℕ → ℕ → Host Hw → List EventInfo → Option (ℕ × Host Hw)
  emit_loop fuel return_val h [] = some (return_val, h)
  emit_loop zero return_val h (e ∷ es) = none
  emit_loop (suc fuel) return_val h (e ∷ es) =
      let (ret, h', pending) =
        lwis_device_event_emit_impl k bus in_irq h e.event_id e.payload e.payload_size es in
      emit_loop fuel (if nonzero ret then ret else return_val) h' pending

  unfoldable pub lwis_pending_events_emit : ℕ → Host Hw → List EventInfo → Option (ℕ × Host Hw)
  unfolding emit_loop
  lwis_pending_events_emit fuel h pending = emit_loop fuel 0 h pending

  unfoldable pub lwis_device_event_emit : ℕ → Host Hw → ℕ → Payload → ℕ → Option (ℕ × Host Hw)
  unfolding lwis_pending_events_emit
  lwis_device_event_emit fuel h event_id payload payload_size =
      let (ret, h', pending) =
        lwis_device_event_emit_impl k bus in_irq h event_id payload payload_size [] in
      let rest = lwis_pending_events_emit fuel h' pending in
      if nonzero ret then some (ret, h') else rest

  -- The device's counter is set to that of the other device. A client whose event cannot be queued
  -- ends the function, and the pending events are lost.
  unfoldable pub lwis_device_external_event_emit : ℕ → Host Hw → ℕ → ℕ → ℕ → Option (Host Hw)
  unfolding lwis_pending_events_emit
  lwis_device_external_event_emit fuel h event_id event_counter timestamp =
      let device = record (h.device) {
        event_states =
            modify device_key h.device.event_states event_id
              (λ x. record x { event_counter = event_counter });
      } in
      let (ret, clients, pending, w) =
        notify_clients k bus in_irq h.world [] h.device.dev_type
          (event_info event_id event_counter timestamp null 0) [] h.clients in
      let h' : Host Hw = record { world = w; device = device; clients = clients } in
      elim (lwis_device_event_state_find h.device.event_states event_id) [
        | none ↦ some h
        | some _ ↦ (elim (nonzero ret) [
          | true ↦ some h'
          | false ↦ (elim (lwis_pending_events_emit fuel h' pending) [
            | none ↦ none
            | some r ↦ some r.1
          ])
        ])
      ]
