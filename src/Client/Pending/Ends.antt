-- ===== src/Client/Pending/Ends.antt =====
-- lwis_pending_events_emit: the number of its rounds.
use google_lwis.Prelude.{
  ℕ, zero, suc, ◌+◌, ◌≤◌, ◌≢◌, Bool, none, List, [], ◌∷◌, arith, length, All, Option-cases, inl,
  inr, nonzero, if◌then◌else◌,
}
use google_lwis.Kernel.{Kernel}
use google_lwis.Io.{Bus}
use google_lwis.Event.{EventInfo, Payload}
use google_lwis.Event.States.{lwis_device_event_state_find}
use google_lwis.Client.{Host}
use google_lwis.Client.Emit.{lwis_device_event_emit_impl}
use google_lwis.Client.Pending.{emit_loop, lwis_pending_events_emit}
use google_lwis.Client.Pending.Weight.{ClientOnce}
use google_lwis.Client.Pending.Told.{waiting_for, clients-Told}

module _ (k : Kernel) {Hw : Type 0} (bus : Bus Hw) (in_irq : Bool) where
  -- What the clients of a host wait for and what is pending.
  abbrev pub Lighter : ℕ → ℕ × Host Hw × List EventInfo → Type 0
  Lighter n r = (waiting_for r.1.clients + length r.2 ≤ n) × All ClientOnce r.1.clients

  impl-Lighter :
      (h : Host Hw) (event_id : ℕ) (payload : Payload) (size : ℕ) (pending : List EventInfo)
      → All ClientOnce h.clients
      → Lighter
          (waiting_for h.clients + length pending)
          (lwis_device_event_emit_impl k bus in_irq h event_id payload size pending)
  unfolding lwis_device_event_emit_impl
  impl-Lighter h event_id payload size pending once =
      elim (Option-cases (lwis_device_event_state_find h.device.event_states event_id)) [
        | inl missing ↦ rw (missing, lwis_device_event_emit_impl) (omega arith, once)
        | inr (s, there) ↦
            rw (there, lwis_device_event_emit_impl)
              (clients-Told k bus in_irq _ pending _ _ h.clients once)
      ]

  loop-ends :
      (fuel return_val : ℕ) (h : Host Hw) (pending : List EventInfo)
      → All ClientOnce h.clients
      → waiting_for h.clients + length pending ≤ fuel
      → emit_loop k bus in_irq fuel return_val h pending ≢ none
  unfolding emit_loop
  loop-ends fuel return_val h [] once enough = ground arith
  loop-ends zero return_val h (e ∷ es) once enough = absurd (omega arith)
  loop-ends (suc fuel) return_val h (e ∷ es) once enough =
      let (ret, h', pending) =
        lwis_device_event_emit_impl k bus in_irq h e.event_id e.payload e.payload_size es in
      let (le, onces) = impl-Lighter h e.event_id e.payload e.payload_size es once in
      loop-ends fuel (if nonzero ret then ret else return_val) h' pending onces
        (omega (arith, le, enough))

  -- If no waiting transaction is to run every time, emitting pending events ends: as many rounds are
  -- enough as there are events pending and transactions waiting in the clients of the device.
  pub pending_events_emit_ends :
      (fuel : ℕ) (h : Host Hw) (pending : List EventInfo)
      → All ClientOnce h.clients
      → waiting_for h.clients + length pending ≤ fuel
      → lwis_pending_events_emit k bus in_irq fuel h pending ≢ none
  unfolding lwis_pending_events_emit
  pending_events_emit_ends fuel h pending once enough = loop-ends fuel 0 h pending once enough
