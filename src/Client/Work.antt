-- ===== src/Client/Work.antt =====
-- lwis_transaction.c: the tasklet and the work item of a client, which run its process queues.
use google_lwis.Prelude.{
  ℕ, ◌+◌, ◌≤◌, ◌≡◌, ◌≢◌, refl, sym, ap, subst, Bool, true, false, Option, none, List, [], ◌∷◌, ◌++◌,
  arith, length, All, nonzero, if◌then◌else◌, if-cases,
}
use google_lwis.Kernel.{Kernel}
use google_lwis.Io.{Bus}
use google_lwis.Transaction.{Transaction, Job}
use google_lwis.Transaction.Process.{process_transaction, cancel_transaction, process_queue}
use google_lwis.Client.{Client, Host}
use google_lwis.Client.Pending.{lwis_pending_events_emit}
use google_lwis.Client.Pending.Weight.{ListOnce, ClientOnce, pending-push, pending-process}
use google_lwis.Client.Pending.Told.{waiting_for}
use google_lwis.Transaction.Submit.Laws.{waiting_in}
use google_lwis.Client.Pending.Ends.{pending_events_emit_ends}

-- A client once the queue in question has been run: the queue is empty, and its work is no longer due.
abbrev pub after_run : Client → Bool → {Hw : Type 0} → Job Hw → Client
after_run c in_irq job = record c {
  transactions =
      if in_irq
      then record (c.transactions) {
        process_queue_tasklet = [];
        tasklet_scheduled = false;
        debug_info = job.debug_info;
      }
      else record (c.transactions) {
        process_queue = [];
        work_queued = false;
        debug_info = job.debug_info;
      };
}

abbrev pub queue_of : Client → Bool → List Transaction
queue_of c in_irq =
    if in_irq then c.transactions.process_queue_tasklet else c.transactions.process_queue

run-list :
    (c : Client) (in_irq : Bool) {Hw : Type 0} (job : Job Hw)
    → (after_run c in_irq job).transactions.transaction_list ≡ c.transactions.transaction_list
run-list c true job = refl
run-list c false job = refl

-- A client is replaced by one that waits with the same transactions.
replaced :
    (before : List Client) (c c' : Client) (behind : List Client)
    → c'.transactions.transaction_list ≡ c.transactions.transaction_list
    → All ClientOnce (before ++ c ∷ behind)
    → (waiting_for (before ++ c' ∷ behind) ≡ waiting_for (before ++ c ∷ behind))
      × All ClientOnce (before ++ c' ∷ behind)
replaced [] c c' behind same once = (
  ap (λ l. waiting_in l + waiting_for behind) same,
  (subst (All ListOnce) (sym same) once.0, once.1),
)
replaced (x ∷ before) c c' behind same once =
    let (weight, onces) = replaced before c c' behind same once.1 in
    (omega (arith, weight), (once.0, onces))

module _ (k : Kernel) {Hw : Type 0} (bus : Bus Hw) where
  -- The client stands between others in the list of its device. In interrupt context it is the
  -- tasklet's queue that is run (transaction_tasklet_func), else that of the work item
  -- (transaction_work_func). The fuel is that of lwis_pending_events_emit.
  unfoldable pub process_transactions_in_queue :
      ℕ → Host Hw → List Client → Client → List Client → Bool → Option (ℕ × Host Hw)
  process_transactions_in_queue fuel h before c behind in_irq =
      let job : Job Hw = record {
        world = h.world;
        pending = [];
        debug_info = c.transactions.debug_info;
      } in
      let job' = process_queue k bus job (queue_of c in_irq) in_irq in
      lwis_pending_events_emit k bus in_irq fuel
        (record h { world = job'.world; clients = before ++ after_run c in_irq job' ∷ behind })
        job'.pending

  queue-length :
      (ts : List Transaction) (job : Job Hw) (in_irq : Bool)
      → length (process_queue k bus job ts in_irq).pending ≤ length job.pending + length ts
  unfolding process_queue cancel_transaction
  queue-length [] job in_irq = omega arith
  queue-length (t ∷ ts) job in_irq =
      let job1 : Job Hw =
        if nonzero t.resp.error_code
        then cancel_transaction k job t t.resp.error_code
        else (process_transaction k bus job t in_irq).1 in
      let one : length job1.pending ≤ length job.pending + 1 =
        if-cases {A = Job Hw} (λ j. length j.pending ≤ length job.pending + 1)
          (nonzero t.resp.error_code) (λ _. pending-push k _ job.pending _ _ _)
          (λ _. pending-process k bus 0 in_irq job t) in
      omega (arith, one, queue-length ts job1 in_irq)

  -- Running a process queue of a client ends if no waiting transaction of any client of the device is
  -- to run every time: as many rounds for the pending events are enough as there are transactions in
  -- the queue and waiting.
  pub process_transactions_in_queue_ends :
      (fuel : ℕ) (h : Host Hw) (before : List Client) (c : Client) (behind : List Client)
      (in_irq : Bool)
      → All ClientOnce (before ++ c ∷ behind)
      → waiting_for (before ++ c ∷ behind) + length (queue_of c in_irq) ≤ fuel
      → process_transactions_in_queue fuel h before c behind in_irq ≢ none
  unfolding process_transactions_in_queue
  process_transactions_in_queue_ends fuel h before c behind in_irq once enough =
      let job : Job Hw = record {
        world = h.world;
        pending = [];
        debug_info = c.transactions.debug_info;
      } in
      let job' = process_queue k bus job (queue_of c in_irq) in_irq in
      let (weight, onces) =
        replaced before c (after_run c in_irq job') behind (run-list c in_irq job') once in
      pending_events_emit_ends k bus in_irq fuel
        (record h { world = job'.world; clients = before ++ after_run c in_irq job' ∷ behind })
        job'.pending onces
        (omega (arith, weight, enough, queue-length (queue_of c in_irq) job in_irq))
