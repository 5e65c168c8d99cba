-- ===== src/Tests/Emit.antt =====
-- Emitting an event to a client whose transactions wait for it.
use google_lwis.Prelude.{ℕ, true, ◌+◌, ◌^◌, ◌≢◌, refl, false, none, some, ◌≡◌, List, [], ◌∷◌, arith}
use google_lwis.Io.Scratch.{Scratch}
use google_lwis.Event.{EventInfo, null, on_next_occurrence, every_time}
use google_lwis.Event.Queue.{empty}
use google_lwis.Device.{Device}
use google_lwis.Transaction.{Transaction}
use google_lwis.Client.{Client, Host}
use google_lwis.Event.States.{DeviceEventState, lwis_device_event_state_find}
use google_lwis.Client.Emit.{event_info, lwis_device_event_emit_impl}
use google_lwis.Client.Emit.Delivery.{queues, with_event, emit_impl-Delivered}
use google_lwis.Client.Pending.{lwis_pending_events_emit}
use google_lwis.Client.Pending.Endless.{IsEndless}
use google_lwis.Client.Pending.Runs.{IsStuck, pending_events_emit_endless}
use google_lwis.Client.Work.{process_transactions_in_queue, process_transactions_in_queue_ends}
use google_lwis.Client.Pending.Ends.{pending_events_emit_ends}
use google_lwis.Tests.{kernel, bus, world}
use google_lwis.Tests.Transactions.{info, transaction, history, good}

-- The client has enabled event 4097 and waits for it twice.
abbrev waiting : List Transaction
waiting = transaction 0 on_next_occurrence good ∷ transaction 1 2 [] ∷ []

abbrev subscriber : Client
subscriber = record {
  event_states = record { event_id = 4097; flags = 3 } ∷ [];
  event_queue = empty;
  error_event_queue = empty;
  transactions = record {
    transaction_list = record { event_id = 4097; list = waiting } ∷ [];
    process_queue_tasklet = [];
    process_queue = [];
    tasklet_scheduled = false;
    work_queued = false;
    transaction_counter = 2;
    debug_info = history;
  };
}

abbrev device : Device
device = record {
  id = 0;
  dev_type = 0;
  enabled = 1;
  irqs = none;
  heartbeat = false;
  event_states =
      record { event_id = 4097; enable_counter = 1; event_counter = 0; has_subscriber = false }
      ∷ [];
  event_hist = [];
  cur_event_hist_idx = 0;
  emitted = [];
}

abbrev host : Host Scratch
host = record { world = world; device = device; clients = subscriber ∷ [] }

abbrev occurrence : EventInfo
occurrence = record {
  event_id = 4097;
  event_counter = 0;
  timestamp_ns = 0;
  payload_size = 0;
  payload = null;
}

pending_events_emit_ends_example :
    lwis_pending_events_emit kernel bus false 3 host (occurrence ∷ []) ≢ none
pending_events_emit_ends_example =
    pending_events_emit_ends kernel bus false 3 host (occurrence ∷ [])
      (((refl, (refl, tt)), tt), tt) (omega arith)

emit_impl-Delivered_example :
    let (ret, h', _) = lwis_device_event_emit_impl kernel bus false host 4097 null 0 [] in
    let e = event_info 4097 1 5000000 null 0 in
    (ret ≡ 0)
    × (queues h'.clients ≡ with_event e host.clients)
    × (lwis_device_event_state_find h'.device.event_states 4097
        ≡ some (record {
          event_id = 4097;
          enable_counter = 1;
          event_counter = 1;
          has_subscriber = false;
        }))
unfolding google_lwis.Event.States.Table.find
emit_impl-Delivered_example =
    emit_impl-Delivered kernel bus false host
      (record { event_id = 4097; enable_counter = 1; event_counter = 0; has_subscriber = false })
      4097 null 0 [] refl (λ n. refl) (λ wanted. omega arith, tt)

-- A transaction without entries that runs on every success of its own.
abbrev own_success : ℕ
own_success = 2 ^ 63 + 1

abbrev again : Transaction
again = record (transaction 0 every_time []) {
  info = record (info 0 every_time []) {
    trigger_event_id = own_success;
    run_in_event_context = true;
  };
}

again-IsEndless : IsEndless kernel bus false again own_success
unfolding google_lwis.Transaction.Process.run_entries google_lwis.Transaction.Response.new_response
again-IsEndless = record {
  every = refl;
  at_once = refl;
  clean = refl;
  same = refl;
  succeeds = λ w. refl;
}

abbrev repeating : Client
repeating = record subscriber {
  transactions = record (subscriber.transactions) {
    transaction_list = record { event_id = own_success; list = again ∷ [] } ∷ [];
  };
}

abbrev own_state : DeviceEventState
own_state = record {
  event_id = own_success;
  enable_counter = 0;
  event_counter = 0;
  has_subscriber = false;
}

abbrev stuck_host : Host Scratch
stuck_host = record {
  world = world;
  device = record device { event_states = own_state ∷ [] };
  clients = repeating ∷ [];
}

stuck_host-IsStuck : IsStuck kernel bus false 0 refl stuck_host own_success 0 again
unfolding google_lwis.Event.States.Table.find
stuck_host-IsStuck = record {
  dev = refl;
  clients = (repeating, refl, refl, refl);
  state = own_state;
  known = refl;
  counter = refl;
}

pending_events_emit_endless_example :
    lwis_pending_events_emit kernel bus false 1000000 stuck_host
      (record occurrence { event_id = own_success } ∷ [])
    ≡ none
pending_events_emit_endless_example =
    pending_events_emit_endless kernel bus false 0 refl 1000000 stuck_host
      (record occurrence { event_id = own_success }) 0 again (λ n. refl) again-IsEndless
      (omega arith) stuck_host-IsStuck

-- A client with one transaction in its process queue, beside another client.
abbrev busy : Client
busy = record subscriber {
  transactions = record (subscriber.transactions) {
    process_queue = transaction 5 1 good ∷ [];
    work_queued = true;
  };
}

process_transactions_in_queue_ends_example :
    process_transactions_in_queue kernel bus 5 host (subscriber ∷ []) busy [] false ≢ none
process_transactions_in_queue_ends_example =
    process_transactions_in_queue_ends kernel bus 5 host (subscriber ∷ []) busy [] false
      (((refl, (refl, tt)), tt), (((refl, (refl, tt)), tt), tt)) (omega arith)
