-- ===== src/Event/Queue/Laws.antt =====
-- lwis_event.c: the event queues against a list.
use google_lwis.Prelude.{
  ℕ, ◌≤◌, ◌≡◌, refl, Bool, Option, none, some, List, [], ◌∷◌, ◌++◌, arith, neg, ltb, if◌then◌else◌,
  length, length-append,
}
use google_lwis.Kernel.{enoent, eoverflow}
use google_lwis.Event.{EventInfo}
use google_lwis.Event.Queue.{
  Queue, empty, max_num_pending_events, event_queue_get_front, pop_front, peek_front,
  event_queue_clear, push_back,
}

-- The size counts the entries, and stays within the limit.
pub record IsValid (q : Queue) : Type 0 where
  pub counted : q.size ≡ length q.entries
  pub bounded : q.size ≤ max_num_pending_events

pub empty-IsValid : IsValid empty
empty-IsValid = record { counted = refl; bounded = omega arith }

pub push_back-IsValid : {q : Queue} (e : EventInfo) → IsValid q → IsValid (push_back q e).1
unfolding push_back
push_back-IsValid {q} e v = ground (arith, length-append q.entries (e ∷ []))

front-IsValid :
    (entries : List EventInfo) (size : ℕ) (remove : Bool)
    → let q : Queue = record { entries = entries; size = size } in
      IsValid q → IsValid (event_queue_get_front q remove).2
unfolding event_queue_get_front
front-IsValid [] size remove v = v
front-IsValid (e ∷ rest) size remove v = ground arith

pub get_front-IsValid :
    {q : Queue} (remove : Bool) → IsValid q → IsValid (event_queue_get_front q remove).2
get_front-IsValid {q} remove v = front-IsValid q.entries q.size remove v

pub clear-IsValid : (q : Queue) → IsValid (event_queue_clear q)
unfolding event_queue_clear
clear-IsValid q = empty-IsValid

-- The specification: a first-in first-out list of at most 2048 events.
pub data Op : Type 0 where
  push : EventInfo → Op
  pop peek clear : Op

abbrev pub Reply : Type 0
Reply = ℕ × Option EventInfo

spec : List EventInfo → Op → Reply × List EventInfo
spec l (push e) =
    if ltb (length l) 2048 then ((0, none), l ++ e ∷ []) else ((neg eoverflow, none), l)
spec [] pop = ((neg enoent, none), [])
spec (e ∷ l) pop = ((0, some e), l)
spec [] peek = ((neg enoent, none), [])
spec (e ∷ l) peek = ((0, some e), e ∷ l)
spec l clear = ((0, none), [])

pub spec_run : List EventInfo → List Op → List Reply
unfolding spec
spec_run l [] = []
spec_run l (op ∷ ops) = let (reply, l') = spec l op in reply ∷ spec_run l' ops

-- The same calls made of the code.
call : Queue → Op → Reply × Queue
call q (push e) = let (ret, q') = push_back q e in ((ret, none), q')
call q pop = let (ret, e, q') = pop_front q in ((ret, e), q')
call q peek = let (ret, e, q') = peek_front q in ((ret, e), q')
call q clear = ((0, none), event_queue_clear q)

pub run : Queue → List Op → List Reply
unfolding call
run q [] = []
run q (op ∷ ops) = let (reply, q') = call q op in reply ∷ run q' ops

call_refines :
    (entries : List EventInfo) (size : ℕ) (op : Op)
    → let q : Queue = record { entries = entries; size = size } in
      IsValid q
      → IsValid (call q op).1
        × ((call q op).0 ≡ (spec entries op).0)
        × ((call q op).1.entries ≡ (spec entries op).1)
unfolding call spec push_back event_queue_get_front event_queue_clear
call_refines l size (push e) v = ground (arith, length-append l (e ∷ []))
call_refines [] size pop v = (v, refl, refl)
call_refines (e ∷ l) size pop v = (ground arith, refl, refl)
call_refines [] size peek v = (v, refl, refl)
call_refines (e ∷ l) size peek v = (v, refl, refl)
call_refines [] size clear v = (omega arith, refl, refl)
call_refines (e ∷ l) size clear v = (omega arith, refl, refl)

-- No sequence of pushes, pops, peeks and clears tells a valid queue from the list of its entries,
-- kept to 2048 at most: the codes and the events returned are the same.
pub run_refines : (ops : List Op) {q : Queue} → IsValid q → run q ops ≡ spec_run q.entries ops
unfolding run spec_run
run_refines [] v = refl
run_refines (op ∷ ops) {q} v =
    let (valid, reply, entries) = call_refines q.entries q.size op v in
    rw (run_refines ops valid, reply, entries)
