-- ===== src/Ioctl/Events/Kept.antt =====
-- Events that arrive at a client and are taken by it.
use google_lwis.Prelude.{
  ℕ, ◌≡◌, refl, ap, sym, ◌∙◌, append-nil, Bool, true, false, not, ◌&&◌, List, [], ◌∷◌, ◌++◌, arith,
  nonzero, leb, ltb, if◌then◌else◌, if-cases, All,
}
use google_lwis.Event.{EventInfo}
use google_lwis.Event.Queue.{
  Queue, push_back, event_queue_get_front, peek_front, max_num_pending_events,
}
use google_lwis.Ioctl.Events.{
  Inbox, DequeueRequest, Told, nothing, needs, event, dequeue_event, dequeue_normal, dequeue_error,
  ioctl_event_dequeue, pop_event, pop_error_event,
}

-- An event or an error event is put in its queue by lwis_client_event_push_back or
-- lwis_client_error_event_push_back, or the client asks for one.
pub data Happening : Type 0 where
  arrives : EventInfo → Happening
  arrives_error : EventInfo → Happening
  asks : DequeueRequest → Happening

-- The events that the queues have taken in, those that the client was given, and the queues at the end.
pub record Ledger : Type 0 where
  pub accepted : List EventInfo
  pub accepted_errors : List EventInfo
  pub received : List EventInfo
  pub received_errors : List EventInfo
  pub inbox : Inbox

abbrev is_empty : List EventInfo → Bool
is_empty [] = true
is_empty (e ∷ es) = false

-- An answer is noted as an error event where one was waiting.
abbrev note : Told → Bool → Ledger → Ledger
note nothing no_error l = l
note (needs size) no_error l = l
note (event e) true l = record l { received = e ∷ l.received }
note (event e) false l = record l { received_errors = e ∷ l.received_errors }

abbrev enter : ℕ → EventInfo → List EventInfo → List EventInfo
enter ret e es = if nonzero ret then es else e ∷ es

unfoldable pub run_inbox : Inbox → List Happening → Ledger
run_inbox i [] = record {
  accepted = [];
  accepted_errors = [];
  received = [];
  received_errors = [];
  inbox = i;
}
run_inbox i (arrives e ∷ hs) =
    let (ret, q) = push_back i.event_queue e in
    let rest = run_inbox (record i { event_queue = q }) hs in
    record rest { accepted = enter ret e rest.accepted }
run_inbox i (arrives_error e ∷ hs) =
    let (ret, q) = push_back i.error_event_queue e in
    let rest = run_inbox (record i { error_event_queue = q }) hs in
    record rest { accepted_errors = enter ret e rest.accepted_errors }
run_inbox i (asks r ∷ hs) =
    let (ret, told, i') = ioctl_event_dequeue r i in
    note told (is_empty i.error_event_queue.entries) (run_inbox i' hs)

-- Every copy of the information back to where it came from succeeds.
abbrev pub IsReturned : Happening → Type 0
IsReturned (arrives e) = Unit {0}
IsReturned (arrives_error e) = Unit {0}
IsReturned (asks r) = r.returned ≡ true

-- What was there or came is given or still there, each once and in its order.
abbrev pub IsKept : Inbox → Ledger → Type 0
IsKept i l =
    (l.received ++ l.inbox.event_queue.entries ≡ i.event_queue.entries ++ l.accepted)
    × (l.received_errors ++ l.inbox.error_event_queue.entries
        ≡ i.error_event_queue.entries ++ l.accepted_errors)

snoc_lem :
    (es : List EventInfo) (e : EventInfo) (later : List EventInfo)
    → (es ++ e ∷ []) ++ later ≡ es ++ e ∷ later
snoc_lem [] e later = refl
snoc_lem (x ∷ es) e later = ap (λ l. x ∷ l) (snoc_lem es e later)

push_lem :
    (q : Queue) (e : EventInfo) (later all : List EventInfo)
    → all ≡ (push_back q e).1.entries ++ later
    → all ≡ q.entries ++ enter (push_back q e).0 e later
unfolding push_back
push_lem q e later all h =
    if-cases
      (λ (x : ℕ × Queue). (all ≡ x.1.entries ++ later → all ≡ q.entries ++ enter x.0 e later))
      (leb max_num_pending_events q.size) (λ full g. g) (λ room g. g ∙ snoc_lem q.entries e later) h

module _ (r : DequeueRequest) (l : Ledger) where
  -- An answer keeps the events if the queues are left alone or the event is the one popped.
  event_lem :
      (i : Inbox) (popped : ℕ × Inbox) (e : EventInfo) (no_error : Bool)
      → r.returned ≡ true
      → popped.0 ≡ 0
      → (IsKept popped.1 l → IsKept i (note (event e) no_error l))
      → IsKept (dequeue_event r i popped e).2 l
      → IsKept i (note (dequeue_event r i popped e).1 no_error l)
  unfolding dequeue_event
  event_lem i popped e no_error returned done taken =
      let P = λ (x : ℕ × Told × Inbox). (IsKept x.2 l → IsKept i (note x.1 no_error l)) in
      if-cases P (ltb r.payload_buffer_size e.payload_size)
        (λ small. if-cases P r.returned (λ y h. h) (λ n h. h))
        (λ fits.
          if-cases P (ltb 0 e.payload_size && r.has_buffer && not r.payload_copied) (λ y h. h)
            (λ copied.
              if-cases P (nonzero popped.0) (λ y. absurd (ground arith))
                (λ n. if-cases P r.returned (λ y h. taken h) (λ y. absurd (ground arith)))))

  -- The queues by their entries and sizes.
  ask_lem :
      (es xs : List EventInfo) (n m : ℕ)
      → r.returned ≡ true
      → let i : Inbox = record {
        event_queue = record { entries = es; size = n };
        error_event_queue = record { entries = xs; size = m };
      } in
        IsKept (ioctl_event_dequeue r i).2 l
        → IsKept i (note (ioctl_event_dequeue r i).1 (is_empty xs) l)
  unfolding ioctl_event_dequeue dequeue_error dequeue_normal event_queue_get_front
  ask_lem es xs n m returned h =
      let i : Inbox = record {
        event_queue = record { entries = es; size = n };
        error_event_queue = record { entries = xs; size = m };
      } in
      if-cases (λ (x : ℕ × Told × Inbox). (IsKept x.2 l → IsKept i (note x.1 (is_empty xs) l)))
        (not r.copied) (λ y g. g) (λ y. asked es xs n m returned) h
    where
      asked :
          (es xs : List EventInfo) (n m : ℕ)
          → r.returned ≡ true
          → let i : Inbox = record {
            event_queue = record { entries = es; size = n };
            error_event_queue = record { entries = xs; size = m };
          } in
            let answer = dequeue_error r i (peek_front i.error_event_queue) in
            IsKept answer.2 l → IsKept i (note answer.1 (is_empty xs) l)
      asked [] [] n m returned h = h
      asked (e ∷ es) [] n m returned h =
          let i : Inbox = record {
            event_queue = record { entries = e ∷ es; size = n };
            error_event_queue = record { entries = []; size = m };
          } in
          event_lem i (pop_event i) e true returned refl (λ g. (ap (λ z. e ∷ z) g.0, g.1)) h
      asked es (x ∷ xs) n m returned h =
          let i : Inbox = record {
            event_queue = record { entries = es; size = n };
            error_event_queue = record { entries = x ∷ xs; size = m };
          } in
          event_lem i (pop_error_event i) x false returned refl (λ g. (g.0, ap (λ z. x ∷ z) g.1)) h

-- Events arrive at a client and it asks for events, in any order, whichever queues are full, buffers
-- too small and copies fail, but for the last copy of a request, which goes back to where its first
-- came from. An event that the client is given counts as an error event where one was waiting. Then
-- the error events that it is given, followed by those still queued, are those that were queued,
-- followed by those that the queue has taken in, and the same holds of the other events: none is
-- lost, repeated or overtaken by one of its kind, and none of the others is given before an error event
-- that is waiting.
pub run_inbox-IsKept :
    (i : Inbox) (hs : List Happening) → All IsReturned hs → IsKept i (run_inbox i hs)
unfolding run_inbox
run_inbox-IsKept i [] h =
    (sym (append-nil i.event_queue.entries), sym (append-nil i.error_event_queue.entries))
run_inbox-IsKept i (arrives e ∷ hs) h =
    let q = (push_back i.event_queue e).1 in
    let rest = run_inbox-IsKept (record i { event_queue = q }) hs h.1 in
    (push_lem i.event_queue e _ _ rest.0, rest.1)
run_inbox-IsKept i (arrives_error e ∷ hs) h =
    let q = (push_back i.error_event_queue e).1 in
    let rest = run_inbox-IsKept (record i { error_event_queue = q }) hs h.1 in
    (rest.0, push_lem i.error_event_queue e _ _ rest.1)
run_inbox-IsKept i (asks r ∷ hs) h =
    let i1 = (ioctl_event_dequeue r i).2 in
    ask_lem r (run_inbox i1 hs) i.event_queue.entries i.error_event_queue.entries i.event_queue.size
      i.error_event_queue.size h.0 (run_inbox-IsKept i1 hs h.1)
