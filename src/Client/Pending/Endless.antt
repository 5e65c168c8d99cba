-- ===== src/Client/Pending/Endless.antt =====
-- lwis_pending_events_emit: one round, for a transaction that runs every time, at once, and on its
-- own success event.
use google_lwis.Prelude.{
  ℕ, ◌+◌, ◌<◌, ◌≡◌, sym, subst, ap, ◌∙◌, Bool, true, false, some, List, [], ◌∷◌, ◌++◌, arith, ◌==◌,
  if◌then◌else◌, ◌&&◌,
}
use google_lwis.Kernel.{Kernel, World, lwis_get_time}
use google_lwis.Io.{Bus}
use google_lwis.Event.{EventInfo, Payload, null, every_time}
use google_lwis.Event.Queue.{lwis_pending_event_push}
use google_lwis.Event.States.Table.{find, modify}
use google_lwis.Transaction.{Transaction, EventList, ClientTransactions, list_key, Job}
use google_lwis.Transaction.Process.{run_entries, process_transaction}
use google_lwis.Transaction.Trigger.{
  Triggered, device_type_i2c, begin_trigger, finish_trigger, new_repeating_transaction_iteration,
  defer_transaction_locked, trigger_one, trigger_all, trigger_list, lwis_transaction_event_trigger,
}

-- One event is pending.
abbrev pub Only : ℕ → List EventInfo → Type 0
Only event_id pending = (e : EventInfo) × (pending ≡ e ∷ []) × (e.event_id ≡ event_id)

alone : (l : EventList) → find list_key (l ∷ []) l.event_id ≡ some l
unfolding find
alone l = ground arith

module _ (k : Kernel) {Hw : Type 0} (bus : Bus Hw) (in_irq : Bool) where
  -- The transaction runs at once on every occurrence of an event, and succeeds with the same event.
  pub record IsEndless (t : Transaction) (event_id : ℕ) : Type 0 where
    pub every : t.info.trigger_event_counter ≡ every_time
    pub at_once : t.info.run_in_event_context ≡ true
    pub clean : t.resp.error_code ≡ 0
    pub same : t.info.emit_success_event_id ≡ event_id
    pub succeeds : (w : World Hw) → (run_entries k bus w t in_irq).error_code ≡ 0

  push-Only :
      (w : World Hw) (pending : List EventInfo) (event_id pushed : ℕ) (payload : Payload) (size : ℕ)
      → k.alloc w.calls ≡ true
      → pending ≡ []
      → pushed ≡ event_id
      → Only event_id (lwis_pending_event_push k w pending pushed payload size).1
  unfolding lwis_pending_event_push
  push-Only w pending event_id pushed payload size done empty same =
      let e : EventInfo = record {
        event_id = pushed;
        event_counter = 0;
        timestamp_ns = 0;
        payload_size = size;
        payload = if size == 0 then null else payload;
      } in
      rw (done, lwis_pending_event_push) (e, ap (λ p. p ++ e ∷ []) empty, same)

  process-Only :
      (job : Job Hw) (t : Transaction) (event_id : ℕ)
      → ((n : ℕ) → k.alloc n ≡ true)
      → IsEndless t event_id
      → job.pending ≡ []
      → Only event_id (process_transaction k bus job t in_irq).1.pending
  unfolding process_transaction
  process-Only job t event_id plenty endless empty =
      let w1 = (lwis_get_time k job.world).1 in
      push-Only _ job.pending event_id _ _ _ (plenty _) empty
        (ground (arith, endless.succeeds w1, endless.same))

  module _ (dev_type : ℕ) (not_i2c : (in_irq && dev_type == device_type_i2c) ≡ false) where
    one-Only :
        (counter : ℕ) (s : Triggered Hw) (t : Transaction) (event_id : ℕ)
        → ((n : ℕ) → k.alloc n ≡ true)
        → IsEndless t event_id
        → counter < every_time
        → s.job.pending ≡ []
        → let (kept, s') = trigger_one k bus dev_type in_irq counter s t in
          (kept ≡ t ∷ []) × Only event_id s'.job.pending
    unfolding trigger_one defer_transaction_locked new_repeating_transaction_iteration
    one-Only counter s t event_id plenty endless early empty =
        let w = s.job.world in
        let job : Job Hw = record (s.job) { world = record w { calls = w.calls + 1 + 1 } } in
        let step : trigger_one k bus dev_type in_irq counter s t
            ≡ (t ∷ [], record s { job = (process_transaction k bus job t in_irq).1 }) =
          ground (
            arith,
            plenty w.calls,
            plenty (w.calls + 1),
            endless.every,
            endless.at_once,
            endless.clean,
          ) in
        (
          ap (λ r. r.0) step,
          subst (λ r. Only event_id r.1.job.pending) (sym step)
              (process-Only job t event_id plenty endless empty),
        )

    -- The client still has the transaction as its only waiting one.
    abbrev pub Waits : ClientTransactions → ℕ → Transaction → Type 0
    Waits c event_id t = c.transaction_list ≡ record { event_id = event_id; list = t ∷ [] } ∷ []

    all-Only :
        (counter : ℕ) (s : Triggered Hw) (t : Transaction) (event_id : ℕ)
        → ((n : ℕ) → k.alloc n ≡ true)
        → IsEndless t event_id
        → counter < every_time
        → s.job.pending ≡ []
        → let (kept, s') = trigger_all k bus dev_type in_irq counter s (t ∷ []) in
          (kept ≡ t ∷ []) × Only event_id s'.job.pending
    unfolding trigger_all
    all-Only counter s t event_id plenty endless early empty =
        let (kept, only) = one-Only counter s t event_id plenty endless early empty in
        (ap (λ x. x ++ []) kept, only)

    list-Only :
        (c : ClientTransactions) (t : Transaction) (event_id counter : ℕ) (job : Job Hw)
        → ((n : ℕ) → k.alloc n ≡ true)
        → IsEndless t event_id
        → counter < every_time
        → job.pending ≡ []
        → Waits c event_id t
        → let (c', job') = trigger_list k bus dev_type in_irq c event_id counter job (t ∷ []) in
          Waits c' event_id t × Only event_id job'.pending
    unfolding trigger_list finish_trigger modify
    list-Only c t event_id counter job plenty endless early empty waits =
        let (kept, only) =
          all-Only counter (begin_trigger c job) t event_id plenty endless early empty in
        (ground (arith, waits, kept), only)

    pub trigger-Only :
        (c : ClientTransactions) (t : Transaction) (event_id counter : ℕ) (job : Job Hw)
        → ((n : ℕ) → k.alloc n ≡ true)
        → IsEndless t event_id
        → counter < every_time
        → job.pending ≡ []
        → Waits c event_id t
        → let (c', job') =
            lwis_transaction_event_trigger k bus dev_type in_irq c event_id counter job in
          Waits c' event_id t × Only event_id job'.pending
    unfolding lwis_transaction_event_trigger
    trigger-Only c t event_id counter job plenty endless early empty waits =
        let l : EventList = record { event_id = event_id; list = t ∷ [] } in
        let there : find list_key c.transaction_list event_id ≡ some l =
          ap (λ table. find list_key table event_id) waits ∙ alone l in
        rw (there, lwis_transaction_event_trigger)
          (list-Only c t event_id counter job plenty endless early empty waits)
