-- ===== src/Device/Flags.antt =====
-- lwis_device_event_flags_updated: the enable counters in the table of event states.
pub mod Refcount
pub mod Heartbeat
use google_lwis.Prelude.{
  ℕ, ◌+◌, ◌^◌, ◌<◌, ◌≡◌, ◌≢◌, refl, Bool, true, false, Option, none, some, List, ◌∷◌, arith, neg,
  ltb, ◌==◌, if◌then◌else◌, Bool-cases, Option-cases, ◌⊎◌, inl, inr,
}
use google_lwis.Kernel.{Kernel, World, enoent, enomem}
use google_lwis.Io.{Vops}
use google_lwis.Event.{event_id_heartbeat, generic_event_id, is_transaction_event, irq_enable}
use google_lwis.Event.States.{
  DeviceEventState, device_key, new_device_state, lwis_device_event_state_find,
  lwis_device_event_state_find_or_create,
}
use google_lwis.Event.States.Table.{find, modify, find-modify, key-find}
use google_lwis.Device.{
  Device, enable_irq, lwis_device_event_enable, update_state, enable_count, call_enable_cb,
  turning_on, lwis_device_event_flags_updated, finish_update, reset_event_counter,
}

abbrev pub counter_of : List DeviceEventState → ℕ → ℕ
counter_of table id = elim (find device_key table id) [ none ↦ 0 | some s ↦ s.enable_counter ]

abbrev pub one_if : Bool → ℕ
one_if true = 1
one_if false = 0

-- A write to the state of one event changes the counter of no other.
counter_of-modify :
    (table : List DeviceEventState) (id other : ℕ) (f : DeviceEventState → DeviceEventState)
    → ((s : DeviceEventState) → (f s).event_id ≡ s.event_id)
    → (s : DeviceEventState) → find device_key table id ≡ some s
    → counter_of (modify device_key table id f) other
      ≡ (if id == other then (f s).enable_counter else counter_of table other)
counter_of-modify table id other f same s found =
    ground (arith, find-modify device_key table id other f same)

enable-event_states :
    {Hw : Type 0} (v : Vops Hw) (w : World Hw) (d : Device) (id : ℕ) (enabled : Bool)
    → (lwis_device_event_enable v w d id enabled).1.event_states ≡ d.event_states
unfolding lwis_device_event_enable
enable-event_states v w d id enabled = ground (arith, irq_keeps d.irqs)
  where
    irq_keeps : (irqs : _) → (enable_irq v irqs w d id enabled).1.event_states ≡ d.event_states
    irq_keeps none = refl
    irq_keeps (some l) = refl

counter_of-reset :
    (d : Device) (id other : ℕ)
    → counter_of (reset_event_counter d id).event_states other ≡ counter_of d.event_states other
counter_of-reset d id other = ground (
  arith,
  find-modify device_key d.event_states id other
      (λ (s : DeviceEventState). record s { event_counter = 0 }),
)

counter_of-finish :
    (d : Device) (id other new_flags : ℕ)
    → counter_of (finish_update d id new_flags).event_states other ≡ counter_of d.event_states other
counter_of-finish d id other new_flags = ground (arith, counter_of-reset d id other)

module _ (k : Kernel) {Hw : Type 0} (v : Vops Hw) where
  pub counter_of-update :
      (w : World Hw) (d : Device) (s : DeviceEventState) (id old_flags new_flags other : ℕ)
      → find device_key d.event_states id ≡ some s
      → counter_of (update_state k v w d s id old_flags new_flags).1.event_states other ≡ (
          if id == other
          then enable_count old_flags new_flags s.enable_counter
          else counter_of d.event_states other)
  unfolding update_state
  counter_of-update w d s id old_flags new_flags other found =
      let count = enable_count old_flags new_flags s.enable_counter in
      let counted : DeviceEventState → DeviceEventState =
        λ x. record x { enable_counter = count } in
      let d1 = record d { event_states = modify device_key d.event_states id counted } in
      let d2 = (lwis_device_event_enable v w d1 id (turning_on old_flags new_flags)).1 in
      ground (
        arith,
        counter_of-modify d.event_states id other counted (λ x. refl) s found,
        enable-event_states v w d1 id (turning_on old_flags new_flags),
        counter_of-finish d1 id other new_flags,
        counter_of-finish d2 id other new_flags,
        counter_of-finish (reset_event_counter d2 id) id other new_flags,
        counter_of-reset d2 id other,
      )

  -- Creating a state changes no counter.
  pub counter_of-created :
      (w : World Hw) (table : List DeviceEventState) (id other : ℕ)
      → counter_of (lwis_device_event_state_find_or_create k w table id).1 other
        ≡ counter_of table other
  unfolding lwis_device_event_state_find_or_create find
  counter_of-created w table id other = ground arith

  -- What is found or created is in the table, under its id.
  pub found_or_created :
      (w : World Hw) (table : List DeviceEventState) (id : ℕ)
      → let (state, table', w') = lwis_device_event_state_find_or_create k w table id in
        (state ≡ none)
        ⊎ ((s : DeviceEventState) × (state ≡ some s) × (find device_key table' id ≡ some s))
  unfolding lwis_device_event_state_find_or_create find
  found_or_created w table id = elim (Option-cases (find device_key table id)) [
    | inl missing ↦ elim (Bool-cases (k.alloc w.calls)) [
      | inl done ↦ inr (new_device_state id, ground arith, ground arith)
      | inr failed ↦ inl (ground arith)
    ]
    | inr (s, there) ↦ inr (s, ground arith, ground arith)
  ]
