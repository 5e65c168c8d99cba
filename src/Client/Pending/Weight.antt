-- ===== src/Client/Pending/Weight.antt =====
-- lwis_pending_events_emit: how many transactions wait and how many events are pending, before and
-- after an event triggers transactions.
use google_lwis.Prelude.{
  ℕ, ◌+◌, ◌≤◌, ◌≡◌, refl, Bool, false, some, List, [], ◌∷◌, arith, length, length-append, ap, subst,
  All, All-append, Bool-cases, Option-cases, inl, inr,
}
use google_lwis.Kernel.{Kernel, World}
use google_lwis.Io.{Bus}
use google_lwis.Event.{EventInfo, Payload}
use google_lwis.Event.Queue.{lwis_pending_event_push}
use google_lwis.Event.States.Table.{find, modify, All-find, All-modify}
use google_lwis.Transaction.{Transaction, EventList, ClientTransactions, list_key, Job}
use google_lwis.Transaction.Process.{process_transaction}
use google_lwis.Transaction.Trigger.{
  Triggered, repeats, begin_trigger, finish_trigger, defer_transaction_locked, trigger_one,
  trigger_all, trigger_list, lwis_transaction_event_trigger,
}
use google_lwis.Transaction.Submit.Laws.{waiting_in}
use google_lwis.Client.{Client}

-- A transaction that runs once, and the same for what waits in a client.
abbrev pub Once : Transaction → Type 0
Once t = repeats t ≡ false

abbrev pub ListOnce : EventList → Type 0
ListOnce l = All Once l.list

abbrev pub ClientOnce : Client → Type 0
ClientOnce c = All ListOnce c.transactions.transaction_list

module _ (k : Kernel) {Hw : Type 0} where
  pub pending-push :
      (w : World Hw) (pending : List EventInfo) (event_id : ℕ) (payload : Payload) (size : ℕ)
      → length (lwis_pending_event_push k w pending event_id payload size).1 ≤ length pending + 1
  unfolding lwis_pending_event_push
  pending-push w pending event_id payload size = elim (Bool-cases (k.alloc w.calls)) [
    | inl done ↦ rw (done, lwis_pending_event_push) (omega (arith, length-append pending (_ ∷ [])))
    | inr failed ↦ rw (failed, lwis_pending_event_push) (omega arith)
  ]

module _ (k : Kernel) {Hw : Type 0} (bus : Bus Hw) (dev_type : ℕ) (in_irq : Bool) where
  pub pending-process :
      (job : Job Hw) (t : Transaction)
      → length (process_transaction k bus job t in_irq).1.pending ≤ length job.pending + 1
  unfolding process_transaction
  pending-process job t = pending-push k _ job.pending _ _ _

  pending-defer :
      (s : Triggered Hw) (t : Transaction)
      → length (defer_transaction_locked k bus dev_type in_irq s t).job.pending
        ≤ length s.job.pending + 1
  unfolding defer_transaction_locked
  pending-defer s t = ground (arith, pending-process s.job t)

  one-Once :
      (counter : ℕ) (s : Triggered Hw) (t : Transaction)
      → Once t
      → let (kept, s') = trigger_one k bus dev_type in_irq counter s t in
        (length kept + length s'.job.pending ≤ 1 + length s.job.pending) × All Once kept
  unfolding trigger_one
  one-Once counter s t once = ground (arith, pending-defer s t)

  trigger_all-Once :
      (ts : List Transaction) (counter : ℕ) (s : Triggered Hw)
      → All Once ts
      → let (kept, s') = trigger_all k bus dev_type in_irq counter s ts in
        (length kept + length s'.job.pending ≤ length ts + length s.job.pending) × All Once kept
  unfolding trigger_all
  trigger_all-Once [] counter s once = (omega arith, tt)
  trigger_all-Once (t ∷ ts) counter s once =
      let (kept, s1) = trigger_one k bus dev_type in_irq counter s t in
      let (kept', s2) = trigger_all k bus dev_type in_irq counter s1 ts in
      let (le, keeps) = one-Once counter s t once.0 in
      let (le', keeps') = trigger_all-Once ts counter s1 once.1 in
      (omega (arith, le, le', length-append kept kept'), All-append Once kept kept' keeps keeps')

-- Replacing the list of one event.
waiting_in-modify :
    (table : List EventList) (event_id : ℕ) (l : EventList) (kept : List Transaction)
    → find list_key table event_id ≡ some l
    → waiting_in (modify list_key table event_id (λ l. record l { list = kept })) + length l.list
      ≡ waiting_in table + length kept
unfolding find modify
waiting_in-modify [] event_id l kept e = ground arith
waiting_in-modify (x ∷ table) event_id l kept e =
    ground (arith, waiting_in-modify table event_id l kept)

module _ (k : Kernel) {Hw : Type 0} (bus : Bus Hw) (dev_type : ℕ) (in_irq : Bool) where
  -- What is waiting and what is pending, together, do not grow when an event triggers transactions.
  abbrev pub NotMore : ClientTransactions → Job Hw → ClientTransactions × Job Hw → Type 0
  NotMore c job r =
      (waiting_in r.0.transaction_list + length r.1.pending
        ≤ waiting_in c.transaction_list + length job.pending)
      × All ListOnce r.0.transaction_list

  list-NotMore :
      (c : ClientTransactions) (l : EventList) (ts : List Transaction) (event_id counter : ℕ)
      (job : Job Hw)
      → find list_key c.transaction_list event_id ≡ some l
      → l.list ≡ ts
      → All ListOnce c.transaction_list
      → NotMore c job (trigger_list k bus dev_type in_irq c event_id counter job ts)
  unfolding trigger_list finish_trigger
  list-NotMore c l [] event_id counter job there same once = (omega arith, once)
  list-NotMore c l (t ∷ ts) event_id counter job there same once =
      let ours : All Once (t ∷ ts) =
        subst (All Once) same
          (All-find list_key ListOnce c.transaction_list event_id l once there) in
      let (kept, s) = trigger_all k bus dev_type in_irq counter (begin_trigger c job) (t ∷ ts) in
      let (le, keeps) =
        trigger_all-Once k bus dev_type in_irq (t ∷ ts) counter (begin_trigger c job) ours in
      (
        omega
            (arith, le, waiting_in-modify c.transaction_list event_id l kept there, ap length same),
        All-modify list_key ListOnce c.transaction_list event_id (λ l. record l { list = kept })
            (λ _ _. keeps) once,
      )

  pub trigger-NotMore :
      (c : ClientTransactions) (event_id counter : ℕ) (job : Job Hw)
      → All ListOnce c.transaction_list
      → NotMore c job (lwis_transaction_event_trigger k bus dev_type in_irq c event_id counter job)
  unfolding lwis_transaction_event_trigger
  trigger-NotMore c event_id counter job once =
      elim (Option-cases (find list_key c.transaction_list event_id)) [
        | inl missing ↦ rw (missing, lwis_transaction_event_trigger) (omega arith, once)
        | inr (l, there) ↦
            rw (there, lwis_transaction_event_trigger)
              (list-NotMore c l l.list event_id counter job there refl once)
      ]
