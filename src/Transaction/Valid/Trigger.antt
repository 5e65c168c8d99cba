-- ===== src/Transaction/Valid/Trigger.antt =====
-- lwis_transaction_event_trigger and the invariant of a client's transactions.
use google_lwis.Prelude.{
  ℕ, Bool, List, [], ◌∷◌, arith, All, All-append, inl, inr, neg, Option-cases,
}
use google_lwis.Kernel.{Kernel, enomem}
use google_lwis.Io.{Bus}
use google_lwis.Event.States.Table.{find, All-find, All-modify}
use google_lwis.Transaction.{Transaction, ClientTransactions, Job, list_key}
use google_lwis.Transaction.Process.{process_transaction}
use google_lwis.Transaction.Trigger.{
  Triggered, begin_trigger, finish_trigger, defer_transaction_locked, trigger_one, trigger_all,
  trigger_list, lwis_transaction_event_trigger, new_repeating_transaction_iteration,
}
use google_lwis.Transaction.Valid.{
  Below, ListBelow, HistoryIsValid, IsValid, save-HistoryIsValid, snoc-All,
}

-- The part of the invariant that concerns the work in hand.
pub record WorkIsValid {Hw : Type 0} (n : ℕ) (s : Triggered Hw) : Type 0 where
  pub tasklet : All (Below n) s.tasklet
  pub queue : All (Below n) s.queue
  pub history : HistoryIsValid s.job.debug_info

module _ (k : Kernel) {Hw : Type 0} (bus : Bus Hw) (dev_type : ℕ) (in_irq : Bool) where
  process-history :
      (job : Job Hw) (t : Transaction) (irq : Bool)
      → HistoryIsValid job.debug_info
      → HistoryIsValid (process_transaction k bus job t irq).1.debug_info
  unfolding process_transaction
  process-history job t irq v = save-HistoryIsValid _ _ _ _ v

  defer-WorkIsValid :
      (n : ℕ) (s : Triggered Hw) (t : Transaction)
      → WorkIsValid n s
      → Below n t
      → WorkIsValid n (defer_transaction_locked k bus dev_type in_irq s t)
  unfolding defer_transaction_locked
  defer-WorkIsValid n s t v b = ground (
    arith,
    snoc-All n s.queue t v.queue b,
    snoc-All n s.tasklet t v.tasklet b,
    process-history s.job t in_irq v.history,
  )

  one-WorkIsValid :
      (n counter : ℕ) (s : Triggered Hw) (t : Transaction)
      → WorkIsValid n s
      → Below n t
      → let (kept, s') = trigger_one k bus dev_type in_irq counter s t in
        All (Below n) kept × WorkIsValid n s'
  unfolding trigger_one new_repeating_transaction_iteration
  one-WorkIsValid n counter s t v b =
      let w = (new_repeating_transaction_iteration k s.job.world t).1 in
      let s' : Triggered Hw = record s { job = record (s.job) { world = w } } in
      let v' : WorkIsValid n s' = record {
        tasklet = v.tasklet;
        queue = v.queue;
        history = v.history;
      } in
      let lost : Transaction = record t { resp = record (t.resp) { error_code = neg enomem } } in
      ground (
        arith,
        snoc-All n s.queue t v.queue b,
        snoc-All n s.queue lost v.queue b,
        defer-WorkIsValid n s t v b,
        defer-WorkIsValid n s' t v' b,
      )

  trigger_all-WorkIsValid :
      (n counter : ℕ) (ts : List Transaction) (s : Triggered Hw)
      → WorkIsValid n s
      → All (Below n) ts
      → let (kept, s') = trigger_all k bus dev_type in_irq counter s ts in
        All (Below n) kept × WorkIsValid n s'
  unfolding trigger_all
  trigger_all-WorkIsValid n counter [] s v b = (tt, v)
  trigger_all-WorkIsValid n counter (t ∷ ts) s v b =
      let (kept, v1) = one-WorkIsValid n counter s t v b.0 in
      let (kept', v2) = trigger_all-WorkIsValid n counter ts _ v1 b.1 in
      (All-append (Below n) _ _ kept kept', v2)

  finish-IsValid :
      (c : ClientTransactions) (kept : List Transaction) (s : Triggered Hw) (event_id : ℕ)
      → IsValid c
      → All (Below c.transaction_counter) kept
      → WorkIsValid c.transaction_counter s
      → IsValid (finish_trigger c event_id kept s).0
  unfolding finish_trigger
  finish-IsValid c kept s event_id v b work = record {
    lists =
        All-modify list_key (ListBelow c.transaction_counter) c.transaction_list event_id
          (λ l. record l { list = kept }) (λ l _. b) v.lists;
    tasklet = work.tasklet;
    queue = work.queue;
    tasklet_due = λ h. ground arith;
    work_due = λ h. ground arith;
    history = work.history;
  }

  list-IsValid :
      (c : ClientTransactions) (ts : List Transaction) (event_id counter : ℕ) (job : Job Hw)
      → IsValid c
      → All (Below c.transaction_counter) ts
      → IsValid (trigger_list k bus dev_type in_irq c event_id counter job ts).0
  unfolding trigger_list
  list-IsValid c [] event_id counter job v b = v
  list-IsValid c (t ∷ ts) event_id counter job v b =
      let n = c.transaction_counter in
      let start : WorkIsValid n (begin_trigger c job) = record {
        tasklet = v.tasklet;
        queue = v.queue;
        history = v.history;
      } in
      let (kept, work) = trigger_all-WorkIsValid n counter (t ∷ ts) (begin_trigger c job) start b in
      finish-IsValid c _ _ event_id v kept work

  -- Triggering an event keeps the invariant of a client's transactions: ids stay below the counter,
  -- whatever is in a process queue is scheduled, and the history index stays in range.
  pub event_trigger-IsValid :
      (c : ClientTransactions) (event_id counter : ℕ) (job : Job Hw)
      → IsValid c
      → IsValid (lwis_transaction_event_trigger k bus dev_type in_irq c event_id counter job).0
  unfolding lwis_transaction_event_trigger
  event_trigger-IsValid c event_id counter job v =
      elim (Option-cases (find list_key c.transaction_list event_id)) [
        | inl missing ↦ rw (missing, lwis_transaction_event_trigger) v
        | inr (l, there) ↦
            rw (there, lwis_transaction_event_trigger)
              (list-IsValid c l.list event_id counter job v (
                All-find list_key (ListBelow c.transaction_counter) c.transaction_list event_id l
                  v.lists there))
      ]
