-- ===== src/Device.antt =====
-- lwis_device.h: the state of a device that events use, and lwis_event.c: enabling its events.
pub mod Flags
use google_lwis.Prelude.{
  ℕ, Bool, true, false, not, ◌&&◌, ◌||◌, Option, none, some, List, neg, nonzero, add64, sub64,
  slt64, ◌==◌, if◌then◌else◌,
}
use google_lwis.Kernel.{Kernel, World, enoent, einval, enomem}
use google_lwis.Io.{Vops}
use google_lwis.Event.{
  event_id_heartbeat, start_of_specialized_range, generic_event_id, is_transaction_event,
  is_failure_event, irq_enable,
}
use google_lwis.Event.States.{DeviceEventState, device_key, lwis_device_event_state_find_or_create}
use google_lwis.Event.States.Table.{modify}
use google_lwis.Interrupt.{Interrupt, lwis_interrupt_event_enable}

-- `struct lwis_device_event_state_history`
pub record EventHistory : Type 0 where
  pub state : DeviceEventState
  pub timestamp : ℕ

-- `struct lwis_trigger_event_info`
pub record TriggerEvent : Type 0 where
  pub trigger_event_id : ℕ
  pub trigger_event_count : ℕ
  pub trigger_event_timestamp : ℕ

-- `struct lwis_device`. `heartbeat` says whether its timer is armed. `emitted` is the list
-- `emitted_event_list_tasklet` of the top device, as far as this device adds to it.
pub record Device : Type 0 where
  pub id : ℕ
  pub dev_type : ℕ
  pub enabled : ℕ
  pub irqs : Option (List Interrupt)
  pub heartbeat : Bool
  pub event_states : List DeviceEventState
  pub event_hist : List EventHistory
  pub cur_event_hist_idx : ℕ
  pub emitted : List TriggerEvent

module _ {Hw : Type 0} (v : Vops Hw) where
  -- `lwis_dev->irqs` is NULL at `none`.
  enable_irq : Option (List Interrupt) → World Hw → Device → ℕ → Bool → ℕ × Device × World Hw
  enable_irq none w d event_id enabled = (neg einval, d, w)
  enable_irq (some irqs) w d event_id enabled =
      let (ret, irqs', hw') = lwis_interrupt_event_enable v w.hw irqs event_id enabled in
      (ret, record d { irqs = some irqs' }, record w { hw = hw' })

  -- No table of virtual functions sets `vops.event_enable`, so its call is left out. Where `err` is
  -- set it is equal to `ret`.
  unfoldable pub lwis_device_event_enable : World Hw → Device → ℕ → Bool → ℕ × Device × World Hw
  unfolding enable_irq
  lwis_device_event_enable w d event_id enabled =
      if slt64 (generic_event_id event_id) start_of_specialized_range
      then (if generic_event_id event_id == event_id_heartbeat
          then (0, record d { heartbeat = enabled }, w)
          else (neg enoent, d, w))
      else if is_transaction_event event_id
      then (neg einval, d, w)
      else enable_irq d.irqs w d event_id enabled

abbrev pub turning_on : ℕ → ℕ → Bool
turning_on old_flags new_flags = not (irq_enable old_flags) && irq_enable new_flags

abbrev pub turning_off : ℕ → ℕ → Bool
turning_off old_flags new_flags = irq_enable old_flags && not (irq_enable new_flags)

-- `state->enable_counter` after the update.
abbrev pub enable_count : ℕ → ℕ → ℕ → ℕ
enable_count old_flags new_flags count =
    if turning_on old_flags new_flags
    then add64 count 1
    else if turning_off old_flags new_flags
    then sub64 count 1
    else count

-- `call_enable_cb`, from the updated counter.
abbrev pub call_enable_cb : ℕ → ℕ → ℕ → Bool
call_enable_cb old_flags new_flags count =
    if turning_on old_flags new_flags
    then count == 1
    else if turning_off old_flags new_flags
    then count == 0
    else false

abbrev reset_event_counter : Device → ℕ → Device
reset_event_counter d event_id = record d {
  event_states = modify device_key d.event_states event_id (λ s. record s { event_counter = 0 });
}

-- Resetting a software event's counter when it is going to be disabled.
abbrev finish_update : Device → ℕ → ℕ → Device
finish_update d event_id new_flags =
    if (is_transaction_event event_id || is_failure_event event_id) && new_flags == 0
    then reset_event_counter d event_id
    else d

module _ (k : Kernel) {Hw : Type 0} (v : Vops Hw) where
  -- The update of the state that was found, and the calls that follow.
  unfoldable pub update_state :
      World Hw → Device → DeviceEventState → ℕ → ℕ → ℕ → ℕ × Device × World Hw
  update_state w d s event_id old_flags new_flags =
      let count = enable_count old_flags new_flags s.enable_counter in
      let on = turning_on old_flags new_flags in
      let d1 = record d {
        event_states =
            modify device_key d.event_states event_id (λ s. record s { enable_counter = count });
      } in
      let (ret, d2, w2) = lwis_device_event_enable v w d1 event_id on in
      if call_enable_cb old_flags new_flags count
      then (if nonzero ret then (ret, d2, w2) else (
        0,
        finish_update (if on then d2 else reset_event_counter d2 event_id) event_id new_flags,
        w2,
      ))
      else (0, finish_update d1 event_id new_flags, w)

  -- No table of virtual functions sets `vops.event_flags_updated`, so its call is left out.
  unfoldable pub lwis_device_event_flags_updated :
      World Hw → Device → ℕ → ℕ → ℕ → ℕ × Device × World Hw
  unfolding update_state
  lwis_device_event_flags_updated w d event_id old_flags new_flags =
      let (state, table, w1) = lwis_device_event_state_find_or_create k w d.event_states event_id in
      let d1 = record d { event_states = table } in
      elim state [
        | none ↦ (neg enomem, d1, w1)
        | some s ↦ update_state w1 d1 s event_id old_flags new_flags
      ]
