-- ===== src/Interrupt/Handler.antt =====
-- lwis_interrupt.c: the handler of an interrupt line, in which its events are emitted.
use google_lwis.Prelude.{
  ℕ, ◌^◌, true, Option, none, some, List, [], ◌∷◌, nonzero, test_bit, bit_or, ◌==◌, if◌then◌else◌,
}
use google_lwis.Kernel.{Kernel}
use google_lwis.Io.{Bus, vops}
use google_lwis.Io.Access.{lwis_device_single_register_read, lwis_device_single_register_write}
use google_lwis.Event.{null}
use google_lwis.Interrupt.{SingleEventInfo, Interrupt}
use google_lwis.Client.{Host}
use google_lwis.Client.Pending.{lwis_device_event_emit}

module _ (k : Kernel) {Hw : Type 0} (bus : Bus Hw) where
  -- The loop over the enabled events: those whose bit is set in the source register are emitted, until
  -- all bits of it have been dealt with. `none` is an emission that is out of fuel.
  unfoldable pub emit_triggered : ℕ → ℕ → ℕ → List SingleEventInfo → Host Hw → Option (Host Hw)
  emit_triggered fuel source_value reset_value [] h = some h
  emit_triggered fuel source_value reset_value (e ∷ es) h =
      let triggered = test_bit source_value e.int_reg_bit in
      let reset' = if triggered then bit_or reset_value (2 ^ e.int_reg_bit) else reset_value in
      let emitted : Option (Host Hw) =
        elim (lwis_device_event_emit k bus true fuel h e.event_id null 0) [
          | none ↦ none
          | some r ↦ some r.1
        ] in
      let after : Option (Host Hw) = if triggered then emitted else some h in
      elim after [
        | none ↦ none
        | some h' ↦
            let rest = emit_triggered fuel source_value reset' es h' in
            if source_value == reset' then some h' else rest
      ]

  -- The code returns IRQ_HANDLED always.
  unfoldable pub lwis_interrupt_event_isr : ℕ → Interrupt → Host Hw → Option (Host Hw)
  unfolding emit_triggered
  lwis_interrupt_event_isr fuel irq h =
      let (ret, source, hw1) =
        lwis_device_single_register_read (some (vops bus)) h.world.hw irq.irq_reg_bid
          irq.irq_src_reg irq.irq_reg_access_size in
      elim source [
        | none ↦ some (record h { world = record (h.world) { hw = hw1 } })
        | some source_value ↦
            (let (reset_ret, hw2) =
                lwis_device_single_register_write (some (vops bus)) hw1 irq.irq_reg_bid
                  irq.irq_reset_reg source_value irq.irq_reg_access_size in
              let h' : Host Hw = record h { world = record (h.world) { hw = hw2 } } in
              let run = emit_triggered fuel source_value 0 irq.enabled_event_infos h' in
              if nonzero reset_ret then some h' else if source_value == 0 then some h' else run)
      ]
