-- ===== src/Transaction/Submit.antt =====
-- lwis_transaction.c: submitting, replacing and cancelling transactions, and flushing a client.
pub mod Laws
use google_lwis.Prelude.{
  ℕ, ◌+◌, Bool, true, false, not, ◌&&◌, Option, none, some, List, [], ◌∷◌, ◌++◌, neg, neg64,
  nonzero, add64, slt64, ◌==◌, if◌then◌else◌,
}
use google_lwis.Kernel.{Kernel, World, kmalloc, lwis_get_time, einval, enoent, enomem, ecanceled}
use google_lwis.Event.{
  ResponseHeader, event_id_none, event_id_client_cleanup, on_next_occurrence, every_time,
  generic_event_id,
}
use google_lwis.Event.States.{
  EventControl, DeviceEventState, lwis_device_event_state_find,
  lwis_client_event_state_find_or_create, lwis_device_event_state_find_or_create,
}
use google_lwis.Event.States.Table.{find, modify}
use google_lwis.Transaction.{TransactionInfo, Transaction, EventList, ClientTransactions, list_key}
use google_lwis.Transaction.Response.{prepare_response_locked}

-- What submitting works on: the event states of the device and of the client, and the transactions.
pub record Site (Hw : Type 0) : Type 0 where
  pub world : World Hw
  pub device_states : List DeviceEventState
  pub client_states : List EventControl
  pub transactions : ClientTransactions

-- EXPLICIT_EVENT_COUNTER
abbrev pub explicit_event_counter : ℕ → Bool
explicit_event_counter x = not (x == on_next_occurrence) && not (x == every_time)

-- `event_counter` of the trigger event, 0 if it has not been encountered, -1 if there is none.
abbrev pub current_counter : List DeviceEventState → ℕ → ℕ
current_counter states trigger_event_id =
    if not (trigger_event_id == event_id_none)
    then elim (lwis_device_event_state_find states trigger_event_id) [
      | none ↦ 0
      | some s ↦ s.event_counter
    ]
    else neg64 1

-- What the comparison of the counters makes of a transaction: refused, immediate, or as it was.
pub data Timing : Type 0 where
  past : Timing
  immediate : Timing
  waiting : Timing

unfoldable pub timing : TransactionInfo → ℕ → Bool → Timing
timing info current allow_counter_eq =
    if not (info.trigger_event_id == event_id_none)
      && explicit_event_counter info.trigger_event_counter
    then (if info.trigger_event_counter == current
        then if allow_counter_eq then immediate else past
        else if slt64 info.trigger_event_counter current
        then past
        else waiting)
    else waiting

-- An immediate transaction goes to a process queue, which is scheduled.
unfoldable pub enqueue_now : ClientTransactions → Transaction → ClientTransactions
enqueue_now c t =
    if t.info.run_at_real_time
    then record c {
      process_queue_tasklet = c.process_queue_tasklet ++ t ∷ [];
      tasklet_scheduled = true;
    }
    else record c { process_queue = c.process_queue ++ t ∷ []; work_queued = true }

abbrev pub stamped : Transaction → ℕ → Transaction
stamped t now = record t { info = record (t.info) { submission_timestamp_ns = now } }

module _ (k : Kernel) {Hw : Type 0} where
  create_device_state : Site Hw → ℕ → Bool × Site Hw
  create_device_state s event_id =
      let (state, table, w) =
        lwis_device_event_state_find_or_create k s.world s.device_states event_id in
      (elim state [ none ↦ false | some _ ↦ true ], record s { world = w; device_states = table })

  create_client_state : Site Hw → ℕ → Bool × Site Hw
  create_client_state s event_id =
      let (state, table, w) =
        lwis_client_event_state_find_or_create k s.world s.client_states event_id in
      (elim state [ none ↦ false | some _ ↦ true ], record s { world = w; client_states = table })

  -- The next attempt is made only if those before it succeeded.
  and_then : Bool × Site Hw → (Site Hw → Bool × Site Hw) → Bool × Site Hw
  and_then (true, s) f = f s
  and_then (false, s) f = (false, s)

  -- Making sure that the software events exist in the event tables.
  unfoldable pub create_sw_events : Site Hw → ℕ → ℕ → Bool × Site Hw
  unfolding create_device_state create_client_state and_then
  create_sw_events s success_id error_id =
      and_then
        (and_then
          (and_then (create_device_state s success_id) (λ s1. create_client_state s1 success_id))
          (λ s2. create_device_state s2 error_id))
        (λ s3. create_client_state s3 error_id)

  unfoldable pub finish_check : Site Hw → TransactionInfo → Timing → ℕ × TransactionInfo × Site Hw
  unfolding create_sw_events
  finish_check s info past = (neg enoent, info, s)
  finish_check s info immediate =
      let (done, s') = create_sw_events s info.emit_success_event_id info.emit_error_event_id in
      (if done then 0 else neg einval, record info { trigger_event_id = event_id_none }, s')
  finish_check s info waiting =
      let (done, s') = create_sw_events s info.emit_success_event_id info.emit_error_event_id in
      (if done then 0 else neg einval, info, s')

  unfoldable pub check_transaction_param_locked :
      Site Hw → TransactionInfo → Bool → ℕ × TransactionInfo × Site Hw
  unfolding finish_check timing
  check_transaction_param_locked s info allow_counter_eq =
      let current = current_counter s.device_states info.trigger_event_id in
      finish_check s (record info { current_trigger_event_counter = current })
        (timing info current allow_counter_eq)

  -- The table has a list for the event afterwards; `none` is NULL.
  unfoldable pub event_list_find_or_create :
      World Hw → List EventList → ℕ → Option (List EventList) × World Hw
  event_list_find_or_create w table event_id = elim (find list_key table event_id) [
    | some _ ↦ (some table, w)
    | none ↦
        (let (done, w') = kmalloc k w in
          ((if done then some (record { event_id = event_id; list = [] } ∷ table) else none), w'))
  ]

  -- The transaction is queued by its address, so the time of submission, which is read last, is seen
  -- in the queue. The clock of `ktime_get` is read like that of `lwis_get_time`.
  unfoldable pub queue_transaction_locked :
      World Hw → ClientTransactions → Transaction → ℕ × ClientTransactions × World Hw
  unfolding event_list_find_or_create enqueue_now
  queue_transaction_locked w c t =
      let (lists, w1) = event_list_find_or_create w c.transaction_list t.info.trigger_event_id in
      let counter = add64 c.transaction_counter 1 in
      if t.info.trigger_event_id == event_id_none
      then (let (now, w2) = lwis_get_time k w in
          (0, record (enqueue_now c (stamped t now)) { transaction_counter = counter }, w2))
      else elim lists [
        | none ↦ (neg einval, c, w1)
        | some table ↦
            (let (now, w2) = lwis_get_time k w1 in
              let queued : EventList → EventList =
                λ l. record l { list = l.list ++ stamped t now ∷ [] } in
              (
                0,
                record c {
                  transaction_list = modify list_key table t.info.trigger_event_id queued;
                  transaction_counter = counter;
                },
                w2,
              ))
      ]

  -- The steps that submitting and replacing share, from a transaction that passed the check.
  unfoldable pub prepare_and_queue : ℕ → Site Hw → TransactionInfo → ℕ × TransactionInfo × Site Hw
  unfolding prepare_response_locked queue_transaction_locked
  prepare_and_queue width s info =
      let (ret, info1, resp, w1) =
        prepare_response_locked k s.world s.transactions.transaction_counter width info in
      elim resp [
        | none ↦ (ret, info1, record s { world = w1 })
        | some (r, size) ↦
            (let (ret2, c, w2) =
                queue_transaction_locked w1 s.transactions (record { info = info1; resp = r }) in
              (ret2, info1, record s { world = w2; transactions = c }))
      ]

  -- The bit width of the registers is an argument, as a number of bytes. The result holds the info
  -- as it goes back to the caller, but for the time of submission.
  unfoldable pub lwis_transaction_submit_locked :
      ℕ → Site Hw → TransactionInfo → ℕ × TransactionInfo × Site Hw
  unfolding check_transaction_param_locked prepare_and_queue
  lwis_transaction_submit_locked width s info =
      let (ret, info1, s1) = check_transaction_param_locked s info info.allow_counter_eq in
      if nonzero ret then (ret, info1, s1) else prepare_and_queue width s1 info1

-- The first transaction with the id is marked; `none` is a list without one.
unfoldable pub mark_canceled : List Transaction → ℕ → Option (List Transaction)
mark_canceled [] id = none
mark_canceled (t ∷ ts) id =
    if t.info.id == id
    then some (record t { resp = record (t.resp) { error_code = neg ecanceled } } ∷ ts)
    else elim (mark_canceled ts id) [ none ↦ none | some ts' ↦ some (t ∷ ts') ]

unfoldable pub cancel_in : List EventList → ℕ → Option (List EventList)
unfolding mark_canceled
cancel_in [] id = none
cancel_in (l ∷ ls) id = elim (mark_canceled l.list id) [
  | some ts ↦ some (record l { list = ts } ∷ ls)
  | none ↦ (elim (cancel_in ls id) [ none ↦ none | some ls' ↦ some (l ∷ ls') ])
]

unfoldable pub cancel_waiting_transaction_locked : ClientTransactions → ℕ → ℕ × ClientTransactions
unfolding cancel_in
cancel_waiting_transaction_locked c id = elim (cancel_in c.transaction_list id) [
  | none ↦ (neg enoent, c)
  | some table ↦ (0, record c { transaction_list = table })
]

-- The same under the lock.
abbrev pub lwis_transaction_cancel : ClientTransactions → ℕ → ℕ × ClientTransactions
lwis_transaction_cancel = cancel_waiting_transaction_locked

module _ (k : Kernel) {Hw : Type 0} where
  unfoldable pub lwis_transaction_replace_locked :
      ℕ → Site Hw → TransactionInfo → ℕ × TransactionInfo × Site Hw
  unfolding check_transaction_param_locked cancel_waiting_transaction_locked prepare_and_queue
  lwis_transaction_replace_locked width s info =
      let (ret, info1, s1) = check_transaction_param_locked k s info false in
      let (found, c) = cancel_waiting_transaction_locked s1.transactions info1.id in
      if nonzero ret
      then (ret, info1, s1)
      else if nonzero found
      then (found, info1, s1)
      else prepare_and_queue k width (record s1 { transactions = c }) info1

-- Every waiting transaction is dropped, but for those of the cleanup event. The transactions are
-- only freed: no event is sent for them. `drain_workqueue` then runs the work item, which empties
-- the process queue; the check of the code that this happened is not modelled.
abbrev pub is_cleanup : EventList → Bool
is_cleanup l = generic_event_id l.event_id == event_id_client_cleanup

unfoldable pub keep_cleanup : List EventList → List EventList
keep_cleanup [] = []
keep_cleanup (l ∷ ls) = if is_cleanup l then l ∷ keep_cleanup ls else keep_cleanup ls
