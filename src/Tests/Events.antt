-- ===== src/Tests/Events.antt =====
-- The event queues, and the events of a device.
use google_lwis.Prelude.{
  ◌<◌, ◌*◌, ℕ, ◌+◌, ◌^◌, ◌≡◌, refl, true, false, none, [], ◌∷◌, arith, neg, ltb, ◌==◌, ◌&&◌,
}
use google_lwis.Kernel.{enoent}
use google_lwis.Event.{EventInfo, null, is_transaction_event}
use google_lwis.Event.Queue.{empty}
use google_lwis.Event.Queue.Laws.{push, pop, peek, clear, run, spec_run, run_refines}
use google_lwis.Event.States.{DeviceEventState}
use google_lwis.Device.{Device, lwis_device_event_enable, lwis_device_event_flags_updated}
use google_lwis.Device.Flags.{counter_of, one_if}
use google_lwis.Device.Flags.Refcount.{Counted, counter_of-flags_updated, event_enable-transaction}
use google_lwis.Device.Flags.Heartbeat.{flags_updated-heartbeat, heartbeat_stops_shared}
use google_lwis.Tests.{kernel, ops, world}

abbrev an_event : ℕ → EventInfo
an_event id = record {
  event_id = id;
  event_counter = 1;
  timestamp_ns = 0;
  payload_size = 0;
  payload = null;
}

run_refines_example :
    run empty (push (an_event 1) ∷ push (an_event 2) ∷ pop ∷ peek ∷ clear ∷ pop ∷ [])
    ≡ spec_run [] (push (an_event 1) ∷ push (an_event 2) ∷ pop ∷ peek ∷ clear ∷ pop ∷ [])
run_refines_example =
    run_refines (push (an_event 1) ∷ push (an_event 2) ∷ pop ∷ peek ∷ clear ∷ pop ∷ []) {q = empty}
      (omega arith)

-- One client has enabled the heartbeat, and another is about to.
abbrev pub device : Device
device = record {
  id = 3;
  dev_type = 2;
  enabled = 1;
  irqs = none;
  heartbeat = true;
  event_states =
      record { event_id = 1; enable_counter = 1; event_counter = 0; has_subscriber = false } ∷ [];
  event_hist = [];
  cur_event_hist_idx = 0;
  emitted = [];
}

enabled_once : Counted device 1 1
unfolding google_lwis.Event.States.Table.find
enabled_once = record { holds = λ h. omega arith; room = omega arith }

counter_of-flags_updated_example :
    let d' = (lwis_device_event_flags_updated kernel ops world device 1 1 0).1 in
    counter_of d'.event_states 1 + one_if ((1 == 1) && true)
    ≡ counter_of device.event_states 1 + one_if ((1 == 1) && false)
unfolding google_lwis.Event.States.Table.find
    google_lwis.Event.States.lwis_device_event_state_find_or_create
counter_of-flags_updated_example =
    counter_of-flags_updated kernel ops world device 1 1 0 1 enabled_once (λ e. cc)

flags_updated-heartbeat_example :
    let d' = (lwis_device_event_flags_updated kernel ops world device 1 1 0).1 in
    d'.heartbeat ≡ ltb 0 (counter_of d'.event_states 1)
unfolding google_lwis.Event.States.Table.find
flags_updated-heartbeat_example =
    flags_updated-heartbeat kernel ops world device 1 1 0 1 (omega arith) refl (λ e. refl)
      enabled_once refl

-- The heartbeat is enabled under the id 1 and under the one with the id of device 5.
abbrev two_heartbeats : Device
two_heartbeats = record device {
  event_states =
      record {
        event_id = 5 * 2 ^ 32 + 1;
        enable_counter = 1;
        event_counter = 0;
        has_subscriber = false;
      }
      ∷ device.event_states;
}

heartbeat_stops_shared_example :
    let d' = (lwis_device_event_flags_updated kernel ops world two_heartbeats 1 1 0).1 in
    (d'.heartbeat ≡ false) × (0 < counter_of d'.event_states (5 * 2 ^ 32 + 1))
unfolding google_lwis.Event.States.Table.find
heartbeat_stops_shared_example =
    heartbeat_stops_shared kernel ops world two_heartbeats 1 1 0 (5 * 2 ^ 32 + 1) refl refl
      (λ e. omega (arith, e)) refl refl refl (omega arith)

event_enable-transaction_example :
    lwis_device_event_enable ops world device (2 ^ 63 + 5) true ≡ (neg enoent, device, world)
event_enable-transaction_example =
    event_enable-transaction kernel ops world device (2 ^ 63 + 5) true (omega arith) refl
