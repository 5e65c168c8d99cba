-- ===== src/Device/Flags/Heartbeat.antt =====
-- The heartbeat timer of a device, and the counters of the events that drive it.
use google_lwis.Prelude.{
  ◌∙◌, ap, sym, subst, refl, Bool-cases, Option-cases, false, ℕ, ◌^◌, ◌<◌, ◌≡◌, ◌≢◌, Bool, true,
  none, some, inl, inr, arith, ltb, ◌==◌, if◌then◌else◌,
}
use google_lwis.Kernel.{Kernel, World}
use google_lwis.Io.{Vops}
use google_lwis.Event.{event_id_heartbeat, generic_event_id, irq_enable}
use google_lwis.Event.States.{DeviceEventState, device_key, lwis_device_event_state_find_or_create}
use google_lwis.Event.States.Table.{find, modify}
use google_lwis.Device.{
  Device, enable_irq, lwis_device_event_enable, enable_count, call_enable_cb, turning_on,
  update_state, lwis_device_event_flags_updated,
}
use google_lwis.Device.Flags.{counter_of, counter_of-created, found_or_created}
use google_lwis.Device.Flags.Refcount.{Counted, counter_of-found}

module _ (k : Kernel) {Hw : Type 0} (v : Vops Hw) where
  heartbeat-update :
      (w : World Hw) (d : Device) (s : DeviceEventState) (id old_flags new_flags : ℕ)
      → generic_event_id id ≡ event_id_heartbeat
      → (update_state k v w d s id old_flags new_flags).1.heartbeat ≡ (
          if call_enable_cb old_flags new_flags (enable_count old_flags new_flags s.enable_counter)
          then turning_on old_flags new_flags
          else d.heartbeat)
  unfolding update_state lwis_device_event_enable
  heartbeat-update w d s id old_flags new_flags generic = ground arith

  heartbeat-unchanged :
      (w : World Hw) (d : Device) (id old_flags new_flags : ℕ)
      → let (state, table, w1) = lwis_device_event_state_find_or_create k w d.event_states id in
        state ≡ none
        → let d' = (lwis_device_event_flags_updated k v w d id old_flags new_flags).1 in
          (d'.heartbeat ≡ d.heartbeat)
          × (counter_of d'.event_states id ≡ counter_of d.event_states id)
  unfolding lwis_device_event_flags_updated
  heartbeat-unchanged w d id old_flags new_flags missing =
      (ground arith, ground (arith, counter_of-created k v w d.event_states id id))

  missing_counter :
      (w : World Hw) (d : Device) (id : ℕ)
      → (lwis_device_event_state_find_or_create k w d.event_states id).0 ≡ none
      → counter_of d.event_states id ≡ 0
  unfolding lwis_device_event_state_find_or_create
  missing_counter w d id missing = elim (Option-cases (find device_key d.event_states id)) [
    | inl absent ↦ ground arith
    | inr (s, there) ↦ absurd (ground arith)
  ]

  -- An update of the heartbeat event itself.
  own-heartbeat :
      (w : World Hw) (d : Device) (id old_flags new_flags : ℕ)
      → id < 2 ^ 64
      → generic_event_id id ≡ event_id_heartbeat
      → Counted d id old_flags
      → d.heartbeat ≡ ltb 0 (counter_of d.event_states id)
      → let d' = (lwis_device_event_flags_updated k v w d id old_flags new_flags).1 in
        d'.heartbeat ≡ ltb 0 (counter_of d'.event_states id)
  unfolding lwis_device_event_flags_updated
  own-heartbeat w d id old_flags new_flags small generic counted runs =
      let (_, table, w1) = lwis_device_event_state_find_or_create k w d.event_states id in
      elim (found_or_created k v w d.event_states id) [
        | inl missing ↦ ground (arith, heartbeat-unchanged w d id old_flags new_flags missing)
        | inr (s, found, listed) ↦ ground (
          arith,
          counter_of-found k v w d s id old_flags new_flags id found listed,
          heartbeat-update w1 (record d { event_states = table }) s id old_flags new_flags generic,
        )
      ]

  other_enable :
      (w : World Hw) (d : Device) (id : ℕ) (enabled : Bool)
      → generic_event_id id ≢ event_id_heartbeat
      → (lwis_device_event_enable v w d id enabled).1.heartbeat ≡ d.heartbeat
  unfolding lwis_device_event_enable
  other_enable w d id enabled different = ground (arith, different, irq_keeps d.irqs)
    where
      irq_keeps : (irqs : _) → (enable_irq v irqs w d id enabled).1.heartbeat ≡ d.heartbeat
      irq_keeps none = refl
      irq_keeps (some l) = refl

  other_update :
      (w : World Hw) (d : Device) (s : DeviceEventState) (id old_flags new_flags : ℕ)
      → generic_event_id id ≢ event_id_heartbeat
      → (update_state k v w d s id old_flags new_flags).1.heartbeat ≡ d.heartbeat
  unfolding update_state
  other_update w d s id old_flags new_flags different =
      let count = enable_count old_flags new_flags s.enable_counter in
      let d1 = record d {
        event_states =
            modify device_key d.event_states id (λ x. record x { enable_counter = count });
      } in
      ground (arith, other_enable w d1 id (turning_on old_flags new_flags) different)

  -- An update of any other event leaves the timer and the counter alone.
  other-heartbeat :
      (w : World Hw) (d : Device) (id old_flags new_flags heartbeat_id : ℕ)
      → generic_event_id id ≢ event_id_heartbeat
      → id ≢ heartbeat_id
      → let d' = (lwis_device_event_flags_updated k v w d id old_flags new_flags).1 in
        (d'.heartbeat ≡ d.heartbeat)
        × (counter_of d'.event_states heartbeat_id ≡ counter_of d.event_states heartbeat_id)
  unfolding lwis_device_event_flags_updated
  other-heartbeat w d id old_flags new_flags heartbeat_id different apart =
      let (_, table, w1) = lwis_device_event_state_find_or_create k w d.event_states id in
      let d1 = record d { event_states = table } in
      elim (found_or_created k v w d.event_states id) [
        | inl missing ↦
            (ground arith, ground (arith, counter_of-created k v w d.event_states id heartbeat_id))
        | inr (s, found, listed) ↦ (
          ground (arith, other_update w1 d1 s id old_flags new_flags different),
          ground (
            arith,
            apart,
            counter_of-found k v w d s id old_flags new_flags heartbeat_id found listed,
          ),
        )
      ]

  -- The events that name the heartbeat drive one timer, whatever device their ids name. On a device
  -- where one such event is updated, and any others that do not name the heartbeat, an update keeps it
  -- true that the timer runs exactly if the counter of that event is positive, whether or not memory
  -- is found; provided that a flag being cleared was counted and that the counter has room for one
  -- more.
  pub flags_updated-heartbeat :
      (w : World Hw) (d : Device) (id old_flags new_flags heartbeat_id : ℕ)
      → id < 2 ^ 64
      → generic_event_id heartbeat_id ≡ event_id_heartbeat
      → (generic_event_id id ≡ event_id_heartbeat → id ≡ heartbeat_id)
      → Counted d id old_flags
      → d.heartbeat ≡ ltb 0 (counter_of d.event_states heartbeat_id)
      → let d' = (lwis_device_event_flags_updated k v w d id old_flags new_flags).1 in
        d'.heartbeat ≡ ltb 0 (counter_of d'.event_states heartbeat_id)
  flags_updated-heartbeat w d id old_flags new_flags heartbeat_id small generic alone counted runs =
      elim (Bool-cases (generic_event_id id == event_id_heartbeat)) [
        | inl names ↦
            let same : id ≡ heartbeat_id = alone (ground arith) in
            subst
              (λ n.
                (lwis_device_event_flags_updated k v w d id old_flags new_flags).1.heartbeat
                ≡ ltb 0 (
                    counter_of
                      (lwis_device_event_flags_updated k v w d id old_flags
                        new_flags).1.event_states
                      n))
              same
              (own-heartbeat w d id old_flags new_flags small (ground arith) counted
                (subst (λ n. d.heartbeat ≡ ltb 0 (counter_of d.event_states n)) (sym same) runs))
        | inr differs ↦
            let different : generic_event_id id ≢ event_id_heartbeat = λ e. ground arith in
            let apart : id ≢ heartbeat_id = λ e. different (ap generic_event_id e ∙ generic) in
            let kept = other-heartbeat w d id old_flags new_flags heartbeat_id different apart in
            kept.0 ∙ runs ∙ ap (ltb 0) (sym kept.1)
      ]

  -- Where two events of a device name the heartbeat and are both enabled, the first by one client,
  -- disabling the first stops the timer, although the counter of the other stays positive.
  pub heartbeat_stops_shared :
      (w : World Hw) (d : Device) (id old_flags new_flags other : ℕ)
      → generic_event_id id ≡ event_id_heartbeat
      → generic_event_id other ≡ event_id_heartbeat
      → id ≢ other
      → irq_enable old_flags ≡ true
      → irq_enable new_flags ≡ false
      → counter_of d.event_states id ≡ 1
      → 0 < counter_of d.event_states other
      → let d' = (lwis_device_event_flags_updated k v w d id old_flags new_flags).1 in
        (d'.heartbeat ≡ false) × (0 < counter_of d'.event_states other)
  unfolding lwis_device_event_flags_updated
  heartbeat_stops_shared w d id old_flags new_flags other names _ apart was now one more =
      let (_, table, w1) = lwis_device_event_state_find_or_create k w d.event_states id in
      let d1 = record d { event_states = table } in
      elim (found_or_created k v w d.event_states id) [
        | inl missing ↦ absurd (omega (arith, missing_counter w d id missing, one))
        | inr (s, found, listed) ↦
            let (held, counts) =
              counter_of-found k v w d s id old_flags new_flags other found listed in
            (
              ground (arith, heartbeat-update w1 d1 s id old_flags new_flags names, held),
              ground (arith, counts, apart),
            )
      ]
