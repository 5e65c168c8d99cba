-- ===== src/Transaction/Process/Reports.antt =====
-- process_transactions_in_queue: the events that running a queue leaves pending.
use google_lwis.Prelude.{
  ℕ, ◌≡◌, refl, sym, ap, ◌∙◌, Bool, true, false, List, [], ◌∷◌, ◌++◌, append-nil, append_assoc, All,
  nonzero, add64, ◌==◌, if◌then◌else◌, if-cases,
}
use google_lwis.Kernel.{Kernel, World}
use google_lwis.Io.{Bus}
use google_lwis.Event.{
  EventInfo, Payload, null, response, periodic_response, bytes, sizeof_response_header,
}
use google_lwis.Event.Queue.{lwis_pending_event_push}
use google_lwis.Transaction.{Transaction, Job}
use google_lwis.Transaction.Process.{process_transaction, cancel_transaction, process_queue}

-- The transaction that an event answers.
abbrev pub answered : Payload → ℕ
answered null = 0
answered (response r results) = r.id
answered (periodic_response header results) = 0
answered (bytes b) = 0

abbrev pub answers : List EventInfo → List ℕ
answers [] = []
answers (e ∷ es) = answered e.payload ∷ answers es

abbrev pub ids : List Transaction → List ℕ
ids [] = []
ids (t ∷ ts) = t.info.id ∷ ids ts

-- The response carries the id of its transaction, and its size, a `size_t`, does not wrap to 0, as an
-- event with a payload of that size carries none.
abbrev pub IsReportable : Transaction → Type 0
IsReportable t =
    (t.resp.id ≡ t.info.id)
    × ((add64 sizeof_response_header t.resp.results_size_bytes == 0) ≡ false)

answers-snoc :
    (es : List EventInfo) (e : EventInfo)
    → answers (es ++ e ∷ []) ≡ answers es ++ answered e.payload ∷ []
answers-snoc [] e = refl
answers-snoc (x ∷ es) e = ap (λ l. answered x.payload ∷ l) (answers-snoc es e)

module _ (k : Kernel) {Hw : Type 0} where
  push-answers :
      (w : World Hw) (pending : List EventInfo) (event_id : ℕ) (payload : Payload) (size : ℕ)
      → k.alloc w.calls ≡ true
      → (size == 0) ≡ false
      → answers (lwis_pending_event_push k w pending event_id payload size).1
        ≡ answers pending ++ answered payload ∷ []
  unfolding lwis_pending_event_push
  push-answers w pending event_id payload size done sized =
      rw (done, sized, lwis_pending_event_push) (answers-snoc pending _)

  cancel-answers :
      (job : Job Hw) (t : Transaction) (error_code : ℕ)
      → ((n : ℕ) → k.alloc n ≡ true)
      → answers (cancel_transaction k job t error_code).pending
        ≡ answers job.pending ++ t.info.id ∷ []
  unfolding cancel_transaction
  cancel-answers job t error_code plenty = push-answers _ job.pending _ _ _ (plenty _) refl

module _ (k : Kernel) {Hw : Type 0} (bus : Bus Hw) where
  process-answers :
      (job : Job Hw) (t : Transaction) (in_irq : Bool)
      → ((n : ℕ) → k.alloc n ≡ true)
      → IsReportable t
      → answers (process_transaction k bus job t in_irq).1.pending
        ≡ answers job.pending ++ t.info.id ∷ []
  unfolding process_transaction
  process-answers job t in_irq plenty reportable =
      push-answers k _ job.pending _ _ _ (plenty _) reportable.1
      ∙ ap (λ i. answers job.pending ++ i ∷ []) reportable.0

  -- Provided that memory is found, and that each response carries the id of its transaction and has a
  -- size that does not wrap to 0, running a process queue leaves one event pending for every transaction of the queue, in their order,
  -- behind the events that were pending: executed or canceled, and whatever the device answers,
  -- each is answered exactly once, by a response with its id.
  pub process_queue-answers :
      (ts : List Transaction) (job : Job Hw) (in_irq : Bool)
      → ((n : ℕ) → k.alloc n ≡ true)
      → All IsReportable ts
      → answers (process_queue k bus job ts in_irq).pending ≡ answers job.pending ++ ids ts
  unfolding process_queue
  process_queue-answers [] job in_irq plenty named = sym (append-nil (answers job.pending))
  process_queue-answers (t ∷ ts) job in_irq plenty named =
      let job1 : Job Hw =
        if nonzero t.resp.error_code
        then cancel_transaction k job t t.resp.error_code
        else (process_transaction k bus job t in_irq).1 in
      let one : answers job1.pending ≡ answers job.pending ++ t.info.id ∷ [] =
        if-cases {A = Job Hw} (λ j. answers j.pending ≡ answers job.pending ++ t.info.id ∷ [])
          (nonzero t.resp.error_code) (λ _. cancel-answers k job t t.resp.error_code plenty)
          (λ _. process-answers job t in_irq plenty named.0) in
      process_queue-answers ts job1 in_irq plenty named.1
      ∙ ap (λ l. l ++ ids ts) one
      ∙ append_assoc (answers job.pending) (t.info.id ∷ []) (ids ts)
