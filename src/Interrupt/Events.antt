-- ===== src/Interrupt/Events.antt =====
-- lwis_interrupt.c: lwis_interrupt_set_event_info, which gives a line its registers and its events.
pub mod Distinct
use google_lwis.Prelude.{
  ℕ, ◌*◌, ◌%◌, ◌^◌, Bool, true, false, not, ◌||◌, Option, none, some, List, [], ◌∷◌, neg, ◌==◌,
  bit_or, if◌then◌else◌,
}
use google_lwis.Kernel.{Kernel, World, kmalloc, einval, enomem}
use google_lwis.Event.States.{DeviceEventState, lwis_device_event_state_find_or_create}
use google_lwis.Interrupt.{SingleEventInfo, Interrupt, get_single_event_info}

-- The registers that are given to a line.
pub record Registers : Type 0 where
  pub irq_reg_bid : ℕ
  pub irq_src_reg : ℕ
  pub irq_reset_reg : ℕ
  pub irq_mask_reg : ℕ
  pub mask_toggled : Bool
  pub irq_reg_access_size : ℕ

-- An event and its bit.
pub record IrqEvent : Type 0 where
  pub irq_event : ℕ
  pub int_reg_bit : ℕ

abbrev pub is_listed : List ℕ → ℕ → Bool
is_listed [] event_id = false
is_listed (c ∷ cs) event_id = c == event_id || is_listed cs event_id

-- The device id in bits 32 to 47 of an event id.
abbrev pub with_device : ℕ → ℕ → ℕ
with_device device_id event_id = bit_or event_id (device_id % 2 ^ 16 * 2 ^ 32)

-- The line without events.
abbrev pub cleared : Interrupt → Registers → Interrupt
cleared irq r = record irq {
  irq_reg_bid = r.irq_reg_bid;
  irq_src_reg = r.irq_src_reg;
  irq_reset_reg = r.irq_reset_reg;
  irq_mask_reg = r.irq_mask_reg;
  mask_toggled = r.mask_toggled;
  irq_reg_access_size = r.irq_reg_access_size;
  event_infos = [];
  enabled_event_infos = [];
}

module _ (k : Kernel) {Hw : Type 0} where
  -- The loop over the events, with the event states of the device. The state of an event is found or
  -- created before it is looked for in the line.
  unfoldable pub add_events :
      World Hw
      → List DeviceEventState
      → Interrupt
      → ℕ
      → List ℕ
      → List IrqEvent
      → ℕ × Interrupt × List DeviceEventState × World Hw
  add_events w states irq device_id critical_events [] = (0, irq, states, w)
  add_events w states irq device_id critical_events (e ∷ es) =
      let (done, w1) = kmalloc k w in
      let event_id = with_device device_id e.irq_event in
      let (_, states2, w2) = lwis_device_event_state_find_or_create k w1 states event_id in
      let new_event : SingleEventInfo = record {
        event_id = event_id;
        int_reg_bit = e.int_reg_bit;
        is_critical = is_listed critical_events e.irq_event;
      } in
      let rest =
        add_events w2 states2 (record irq { event_infos = new_event ∷ irq.event_infos }) device_id
          critical_events es in
      if not done
      then (neg enomem, irq, states, w1)
      else (elim (get_single_event_info irq event_id) [
        | some _ ↦ (neg einval, irq, states2, w2)
        | none ↦ rest
      ])

  -- The flag `has_events`, which nothing reads, is left out.
  unfoldable pub lwis_interrupt_set_event_info :
      World Hw
      → List DeviceEventState
      → Interrupt
      → ℕ
      → Registers
      → List ℕ
      → List IrqEvent
      → ℕ × Interrupt × List DeviceEventState × World Hw
  unfolding add_events
  lwis_interrupt_set_event_info w states irq device_id registers critical_events events =
      add_events w states (cleared irq registers) device_id critical_events events
