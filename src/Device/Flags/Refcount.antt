-- ===== src/Device/Flags/Refcount.antt =====
-- lwis_device_event_flags_updated: the enable counter of an event.
use google_lwis.Prelude.{
  ℕ, ◌+◌, ◌^◌, ◌<◌, ◌≡◌, ◌≢◌, Bool, true, none, some, inl, inr, arith, neg, ◌==◌, if◌then◌else◌,
  ◌&&◌,
}
use google_lwis.Kernel.{Kernel, World, enoent}
use google_lwis.Io.{Vops}
use google_lwis.Event.{is_transaction_event, irq_enable}
use google_lwis.Event.States.{DeviceEventState, device_key, lwis_device_event_state_find_or_create}
use google_lwis.Event.States.Table.{find}
use google_lwis.Device.{
  Device, lwis_device_event_enable, enable_count, lwis_device_event_flags_updated,
}
use google_lwis.Device.Flags.{
  counter_of, one_if, counter_of-update, counter_of-created, found_or_created,
}

-- What makes an update of an event's flags legitimate: a client that had enabled the event is
-- counted, and the counter has room for one more.
pub record Counted (d : Device) (id old_flags : ℕ) : Type 0 where
  pub holds : irq_enable old_flags ≡ true → 0 < counter_of d.event_states id
  pub room : counter_of d.event_states id + 1 < 2 ^ 64

module _ (k : Kernel) {Hw : Type 0} (v : Vops Hw) where
  -- Whatever happens after the state was found, its counter becomes the updated one.
  pub counter_of-found :
      (w : World Hw) (d : Device) (s : DeviceEventState) (id old_flags new_flags other : ℕ)
      → let (state, table, w1) = lwis_device_event_state_find_or_create k w d.event_states id in
        state ≡ some s
        → find device_key table id ≡ some s
        → let d' = (lwis_device_event_flags_updated k v w d id old_flags new_flags).1 in
          (s.enable_counter ≡ counter_of d.event_states id)
          × (counter_of d'.event_states other ≡ (
              if id == other
              then enable_count old_flags new_flags s.enable_counter
              else counter_of d.event_states other))
  unfolding lwis_device_event_flags_updated
  counter_of-found w d s id old_flags new_flags other found listed =
      let (_, table, w1) = lwis_device_event_state_find_or_create k w d.event_states id in
      let d1 = record d { event_states = table } in
      (
        ground (arith, counter_of-created k v w d.event_states id id),
        ground (
          arith,
          counter_of-update k v w1 d1 s id old_flags new_flags other listed,
          counter_of-created k v w d.event_states id other,
        ),
      )

  -- Provided that the event's state is there or can be allocated, that a flag being cleared was
  -- counted, and that the counter has room for one more, an update moves the counter of the event
  -- by the difference of the old and the new enable flag, whatever the update returns, and leaves
  -- the counters of all other events alone.
  pub counter_of-flags_updated :
      (w : World Hw) (d : Device) (id old_flags new_flags other : ℕ)
      → Counted d id old_flags
      → (lwis_device_event_state_find_or_create k w d.event_states id).0 ≢ none
      → let d' = (lwis_device_event_flags_updated k v w d id old_flags new_flags).1 in
        counter_of d'.event_states other + one_if (id == other && irq_enable old_flags)
        ≡ counter_of d.event_states other + one_if (id == other && irq_enable new_flags)
  unfolding lwis_device_event_flags_updated
  counter_of-flags_updated w d id old_flags new_flags other counted there =
      elim (found_or_created k v w d.event_states id) [
        | inl missing ↦ absurd (there missing)
        | inr (s, found, listed) ↦
            ground (arith, counter_of-found w d s id old_flags new_flags other found listed)
      ]

  -- A transaction event, whose id has bit 63, can be neither enabled nor disabled on a device: as an
  -- `int64_t` its id is negative, so it is taken for an unknown generic event, and nothing changes.
  pub event_enable-transaction :
      (w : World Hw) (d : Device) (id : ℕ) (enabled : Bool)
      → id < 2 ^ 64
      → is_transaction_event id ≡ true
      → lwis_device_event_enable v w d id enabled ≡ (neg enoent, d, w)
  unfolding lwis_device_event_enable
  event_enable-transaction w d id enabled small flag = ground arith
