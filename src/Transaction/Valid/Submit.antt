-- ===== src/Transaction/Valid/Submit.antt =====
-- lwis_transaction_submit_locked and the invariant of a client's transactions.
use google_lwis.Prelude.{
  ℕ, ◌+◌, ◌^◌, ◌<◌, ◌≡◌, refl, Bool, true, some, List, [], ◌∷◌, ◌++◌, arith, All, All-map, add64,
  if-cases, inl, inr, ◌==◌, nonzero, Option-cases,
}
use google_lwis.Kernel.{Kernel, World}
use google_lwis.Event.{event_id_none}
use google_lwis.Event.States.Table.{modify, All-modify}
use google_lwis.Transaction.{Transaction, TransactionInfo, EventList, ClientTransactions, list_key}
use google_lwis.Transaction.Trigger.{is_nonempty}
use google_lwis.Transaction.Response.{prepare_response_locked}
use google_lwis.Transaction.Submit.{
  Site, create_sw_events, finish_check, check_transaction_param_locked, event_list_find_or_create,
  enqueue_now, queue_transaction_locked, prepare_and_queue, lwis_transaction_submit_locked, timing,
  past, immediate, waiting, Timing, current_counter,
}
use google_lwis.Transaction.Valid.{Below, ListBelow, IsValid, snoc-All, Below-mono, ListBelow-mono}

nonempty-snoc : (ts : List Transaction) (t : Transaction) → is_nonempty (ts ++ t ∷ []) ≡ true
unfolding is_nonempty
nonempty-snoc [] t = refl
nonempty-snoc (x ∷ ts) t = refl

-- The counter may move up under the invariant.
grow-IsValid :
    (c : ClientTransactions) (n : ℕ)
    → c.transaction_counter < n
    → IsValid c
    → IsValid (record c { transaction_counter = n })
grow-IsValid c n h v = record {
  lists =
      All-map {P = ListBelow c.transaction_counter} {Q = ListBelow n} (ListBelow-mono (omega arith))
        c.transaction_list v.lists;
  tasklet =
      All-map {P = Below c.transaction_counter} {Q = Below n} (Below-mono (omega arith))
        c.process_queue_tasklet v.tasklet;
  queue =
      All-map {P = Below c.transaction_counter} {Q = Below n} (Below-mono (omega arith))
        c.process_queue v.queue;
  tasklet_due = v.tasklet_due;
  work_due = v.work_due;
  history = v.history;
}

-- With a counter n that already admits the new transaction.
enqueue_now-IsValid :
    (c : ClientTransactions) (n : ℕ) (t : Transaction)
    → IsValid (record c { transaction_counter = n })
    → Below n t
    → IsValid (record (enqueue_now c t) { transaction_counter = n })
unfolding enqueue_now
enqueue_now-IsValid c n t v b =
    if-cases (λ x. IsValid (record x { transaction_counter = n })) t.info.run_at_real_time
      (λ _. record {
        lists = v.lists;
        tasklet = snoc-All n c.process_queue_tasklet t v.tasklet b;
        queue = v.queue;
        tasklet_due = λ _. refl;
        work_due = v.work_due;
        history = v.history;
      })
      (λ _. record {
        lists = v.lists;
        tasklet = v.tasklet;
        queue = snoc-All n c.process_queue t v.queue b;
        tasklet_due = v.tasklet_due;
        work_due = λ _. refl;
        history = v.history;
      })

add_waiting-IsValid :
    (c : ClientTransactions) (n id : ℕ) (table : List EventList) (t : Transaction)
    → IsValid (record c { transaction_counter = n })
    → All (ListBelow n) table
    → Below n t
    → IsValid (record c {
      transaction_list = modify list_key table id (λ l. record l { list = l.list ++ t ∷ [] });
      transaction_counter = n;
    })
add_waiting-IsValid c n id table t v h b = record {
  lists =
      All-modify list_key (ListBelow n) table id (λ l. record l { list = l.list ++ t ∷ [] })
        (λ l hl. snoc-All n l.list t hl b) h;
  tasklet = v.tasklet;
  queue = v.queue;
  tasklet_due = v.tasklet_due;
  work_due = v.work_due;
  history = v.history;
}

module _ (k : Kernel) {Hw : Type 0} where
  lists-Below :
      (n : ℕ) (w : World Hw) (table table' : List EventList) (id : ℕ)
      → All (ListBelow n) table
      → (event_list_find_or_create k w table id).0 ≡ some table'
      → All (ListBelow n) table'
  unfolding event_list_find_or_create
  lists-Below n w table table' id h e = ground arith

  queue_transaction-IsValid :
      (w : World Hw) (c : ClientTransactions) (t : Transaction)
      → IsValid c
      → c.transaction_counter + 1 < 2 ^ 64
      → t.info.id ≡ c.transaction_counter
      → IsValid (queue_transaction_locked k w c t).1
  unfolding queue_transaction_locked
  queue_transaction-IsValid w c t v room fresh =
      let n = add64 c.transaction_counter 1 in
      let grown : IsValid (record c { transaction_counter = n }) =
        grow-IsValid c n (omega arith) v in
      if-cases {A = ℕ × ClientTransactions × World Hw} (λ r. IsValid r.1)
        (t.info.trigger_event_id == event_id_none)
        (λ _. enqueue_now-IsValid c n _ grown (omega arith))
        λ _.
          elim (Option-cases
            (event_list_find_or_create k w c.transaction_list t.info.trigger_event_id).0) [
              | inl missing ↦ rw missing v
              | inr (table, there) ↦ rw there (
                  add_waiting-IsValid c n t.info.trigger_event_id table _ grown
                    (lists-Below n w c.transaction_list table t.info.trigger_event_id grown.lists
                      there)
                    (omega arith))
            ]

  prepared-id :
      (w : World Hw) (n width : ℕ) (info : TransactionInfo)
      → (prepare_response_locked k w n width info).1.id ≡ n
  unfolding prepare_response_locked
  prepared-id w n width info = ground arith

  prepare_and_queue-IsValid :
      (width : ℕ) (s : Site Hw) (info : TransactionInfo)
      → IsValid s.transactions
      → s.transactions.transaction_counter + 1 < 2 ^ 64
      → IsValid (prepare_and_queue k width s info).2.transactions
  unfolding prepare_and_queue
  prepare_and_queue-IsValid width s info v room =
      let n = s.transactions.transaction_counter in
      let p = prepare_response_locked k s.world n width info in
      elim (Option-cases p.2) [
        | inl failed ↦ rw failed v
        | inr ((r, size), done) ↦
            (rw done (
              queue_transaction-IsValid p.3 s.transactions (record { info = p.1; resp = r }) v room
                (prepared-id s.world n width info)))
      ]

  -- Creating the software events only adds event states.
  create-transactions :
      (s : Site Hw) (success error : ℕ)
      → (create_sw_events k s success error).1.transactions ≡ s.transactions
  unfolding create_sw_events
  create-transactions s success error = ground arith

  finish-transactions :
      (s : Site Hw) (info : TransactionInfo) (t : Timing)
      → (finish_check k s info t).2.transactions ≡ s.transactions
  unfolding finish_check
  finish-transactions s info past = refl
  finish-transactions s info immediate =
      create-transactions s info.emit_success_event_id info.emit_error_event_id
  finish-transactions s info waiting =
      create-transactions s info.emit_success_event_id info.emit_error_event_id

  pub check-transactions :
      (s : Site Hw) (info : TransactionInfo) (allow : Bool)
      → (check_transaction_param_locked k s info allow).2.transactions ≡ s.transactions
  unfolding check_transaction_param_locked
  check-transactions s info allow =
      let current = current_counter s.device_states info.trigger_event_id in
      finish-transactions s (record info { current_trigger_event_counter = current })
        (timing info current allow)

  -- Submitting a transaction keeps the invariant of the client's transactions, whatever it returns,
  -- as long as the counter of ids has room.
  pub submit-IsValid :
      (width : ℕ) (s : Site Hw) (info : TransactionInfo)
      → IsValid s.transactions
      → s.transactions.transaction_counter + 1 < 2 ^ 64
      → IsValid (lwis_transaction_submit_locked k width s info).2.transactions
  unfolding lwis_transaction_submit_locked
  submit-IsValid width s info v room =
      let (ret, info1, s1) = check_transaction_param_locked k s info info.allow_counter_eq in
      let same : s1.transactions ≡ s.transactions =
        check-transactions s info info.allow_counter_eq in
      let kept : IsValid s1.transactions = rw same v in
      let room1 : s1.transactions.transaction_counter + 1 < 2 ^ 64 = rw same room in
      if-cases {A = ℕ × TransactionInfo × Site Hw} (λ r. IsValid r.2.transactions) (nonzero ret)
        (λ _. kept) (λ _. prepare_and_queue-IsValid width s1 info1 kept room1)
