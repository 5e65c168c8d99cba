-- ===== src/Tests/Inbox.antt =====
-- A client whose queues hold events, and that asks for them.
use google_lwis.Prelude.{ℕ, refl, true, List, [], ◌∷◌}
use google_lwis.Event.{EventInfo, null}
use google_lwis.Event.Queue.{empty}
use google_lwis.Ioctl.Events.{Inbox, DequeueRequest}
use google_lwis.Ioctl.Events.Kept.{
  Happening, arrives, arrives_error, asks, run_inbox, IsKept, run_inbox-IsKept,
}

abbrev of_size : ℕ → ℕ → EventInfo
of_size id size = record {
  event_id = id;
  event_counter = 1;
  timestamp_ns = 0;
  payload_size = size;
  payload = null;
}

abbrev inbox : Inbox
inbox = record {
  event_queue = record { entries = of_size 5 0 ∷ []; size = 1 };
  error_event_queue = empty;
}

abbrev small : DequeueRequest
small = record {
  copied = true;
  payload_buffer_size = 4;
  has_buffer = true;
  payload_copied = true;
  returned = true;
}

abbrev large : DequeueRequest
large = record small { payload_buffer_size = 64 }

-- The error event does not fit at first, and is given before the event that came earlier.
abbrev happenings : List Happening
happenings =
    arrives (of_size 6 0) ∷ arrives_error (of_size 7 16) ∷ asks small ∷ asks large ∷ asks small ∷ []

run_inbox-IsKept_example : IsKept inbox (run_inbox inbox happenings)
run_inbox-IsKept_example = run_inbox-IsKept inbox happenings (tt, (tt, (refl, (refl, (refl, tt)))))
