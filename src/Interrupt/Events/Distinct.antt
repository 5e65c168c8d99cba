-- ===== src/Interrupt/Events/Distinct.antt =====
-- The events of a line after lwis_interrupt_set_event_info.
use google_lwis.Prelude.{
  ℕ, ◌≡◌, refl, ◌⊎◌, inl, inr, not, none, List, [], ◌∷◌, neg, if-cases, Option-cases,
}
use google_lwis.Kernel.{Kernel, World, kmalloc, einval, enomem}
use google_lwis.Event.States.{DeviceEventState, lwis_device_event_state_find_or_create}
use google_lwis.Event.States.Table.{find}
use google_lwis.Interrupt.{SingleEventInfo, Interrupt, info_key}
use google_lwis.Interrupt.Events.{
  Registers, IrqEvent, is_listed, with_device, cleared, add_events, lwis_interrupt_set_event_info,
}

-- No two entries of a table have the same event id.
abbrev pub IsDistinct : List SingleEventInfo → Type 0
IsDistinct [] = Unit
IsDistinct (e ∷ es) = (find info_key es e.event_id ≡ none) × IsDistinct es

-- The events of a list as a line holds them, the last one first.
abbrev pub entries : ℕ → List ℕ → List IrqEvent → List SingleEventInfo → List SingleEventInfo
entries device_id critical_events [] infos = infos
entries device_id critical_events (e ∷ es) infos = entries device_id critical_events es (
    record {
      event_id = with_device device_id e.irq_event;
      int_reg_bit = e.int_reg_bit;
      is_critical = is_listed critical_events e.irq_event;
    }
    ∷ infos)

module _ (k : Kernel) {Hw : Type 0} where
  add_events-IsDistinct :
      (w : World Hw) (states : List DeviceEventState) (irq : Interrupt) (device_id : ℕ)
      (critical_events : List ℕ) (events : List IrqEvent)
      → IsDistinct irq.event_infos
      → let (ret, irq', states', w') = add_events k w states irq device_id critical_events events in
        IsDistinct irq'.event_infos
        × (irq'.enabled_event_infos ≡ irq.enabled_event_infos)
        × (((ret ≡ 0)
              × (irq'.event_infos ≡ entries device_id critical_events events irq.event_infos))
            ⊎ (ret ≡ neg enomem)
            ⊎ (ret ≡ neg einval))
  unfolding add_events
  add_events-IsDistinct w states irq device_id critical_events [] h = (h, refl, inl (refl, refl))
  add_events-IsDistinct w states irq device_id critical_events (e ∷ es) h =
      let (done, w1) = kmalloc k w in
      let event_id = with_device device_id e.irq_event in
      let (_, states2, w2) = lwis_device_event_state_find_or_create k w1 states event_id in
      let new_event : SingleEventInfo = record {
        event_id = event_id;
        int_reg_bit = e.int_reg_bit;
        is_critical = is_listed critical_events e.irq_event;
      } in
      let irq2 = record irq { event_infos = new_event ∷ irq.event_infos } in
      if-cases
        (λ (x : ℕ × Interrupt × List DeviceEventState × World Hw).
          IsDistinct x.1.event_infos
          × (x.1.enabled_event_infos ≡ irq.enabled_event_infos)
          × (((x.0 ≡ 0)
                × (x.1.event_infos ≡ entries device_id critical_events (e ∷ es) irq.event_infos))
              ⊎ (x.0 ≡ neg enomem)
              ⊎ (x.0 ≡ neg einval)))
        (not done) (λ _. (h, refl, inr (inl refl)))
        (λ _. elim (Option-cases (find info_key irq.event_infos event_id)) [
          | inr (s, there) ↦ rw there (h, refl, inr (inr refl))
          | inl missing ↦
              rw missing
                (add_events-IsDistinct w2 states2 irq2 device_id critical_events es (missing, h))
        ])

  -- Whatever lwis_interrupt_set_event_info returns, the events that the line then has are distinct,
  -- and none is enabled; and either it returns 0 and the line has exactly the events given, each with
  -- the id of the device in it, or it returns -ENOMEM or -EINVAL.
  pub set_event_info-IsDistinct :
      (w : World Hw) (states : List DeviceEventState) (irq : Interrupt) (device_id : ℕ)
      (registers : Registers) (critical_events : List ℕ) (events : List IrqEvent)
      → let (ret, irq', states', w') =
          lwis_interrupt_set_event_info k w states irq device_id registers critical_events events in
        IsDistinct irq'.event_infos
        × (irq'.enabled_event_infos ≡ [])
        × (((ret ≡ 0) × (irq'.event_infos ≡ entries device_id critical_events events []))
            ⊎ (ret ≡ neg enomem)
            ⊎ (ret ≡ neg einval))
  unfolding lwis_interrupt_set_event_info
  set_event_info-IsDistinct w states irq device_id registers critical_events events =
      add_events-IsDistinct w states (cleared irq registers) device_id critical_events events tt
