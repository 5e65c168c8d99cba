-- ===== src/Event/Queue.antt =====
-- lwis_event.c: the queues of pending events of a client, and lwis_pending_event_push.
pub mod Laws
use google_lwis.Prelude.{
  ℕ, ◌+◌, ◌≤◌, ◌≡◌, Bool, true, false, Option, none, some, List, [], ◌∷◌, ◌++◌, neg, sub64, leb,
  ◌==◌, if◌then◌else◌, length,
}
use google_lwis.Kernel.{Kernel, World, kmalloc, enoent, enomem, eoverflow}
use google_lwis.Event.{EventInfo, Payload, null}

-- `event_queue` with `event_queue_size`, or the same for errors.
pub record Queue : Type 0 where
  pub entries : List EventInfo
  pub size : ℕ

abbrev pub max_num_pending_events : ℕ
max_num_pending_events = 2048

abbrev pub empty : Queue
empty = record { entries = []; size = 0 }

-- The entry is handed out whether or not it is removed; a caller that passes NULL ignores it.
unfoldable pub event_queue_get_front : Queue → Bool → ℕ × Option EventInfo × Queue
event_queue_get_front q should_remove_entry = elim q.entries [
  | [] ↦ (neg enoent, none, q)
  | e ∷ rest ↦ (
    0,
    some e,
    (if should_remove_entry then record { entries = rest; size = sub64 q.size 1 } else q),
  )
]

abbrev pub pop_front : Queue → ℕ × Option EventInfo × Queue
pop_front q = event_queue_get_front q true

abbrev pub peek_front : Queue → ℕ × Option EventInfo × Queue
peek_front q = event_queue_get_front q false

unfoldable pub event_queue_clear : Queue → Queue
event_queue_clear q = record { entries = []; size = 0 }

-- The part that lwis_client_event_push_back and lwis_client_error_event_push_back share: the size
-- test and the insertion. Neither is ever called with NULL.
unfoldable pub push_back : Queue → EventInfo → ℕ × Queue
push_back q e =
    if leb max_num_pending_events q.size
    then (neg eoverflow, q)
    else (0, record { entries = q.entries ++ e ∷ []; size = q.size + 1 })

-- A failed allocation loses the event. `kzalloc` leaves counter and time 0.
module _ (k : Kernel) {Hw : Type 0} where
  unfoldable pub lwis_pending_event_push :
      World Hw → List EventInfo → ℕ → Payload → ℕ → ℕ × List EventInfo × World Hw
  lwis_pending_event_push w pending event_id payload payload_size =
      let (done, w') = kmalloc k w in
      let event : EventInfo = record {
        event_id = event_id;
        event_counter = 0;
        timestamp_ns = 0;
        payload_size = payload_size;
        payload = if payload_size == 0 then null else payload;
      } in
      if done then (0, pending ++ event ∷ [], w') else (neg enomem, pending, w')
