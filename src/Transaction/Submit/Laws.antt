-- ===== src/Transaction/Submit/Laws.antt =====
-- What submitting and cancelling do to the transactions of a client, seen through the lookup of a
-- transaction by its id.
use google_lwis.Prelude.{
  subst, sym, ap, ℕ, ◌+◌, ◌≡◌, ◌≢◌, ◌⊎◌, inl, inr, refl, Option, none, some, List, [], ◌∷◌, ◌++◌,
  arith, neg, nonzero, add64, length, length-append, ◌==◌, if◌then◌else◌, if-cases, Bool-cases,
  Option-cases,
}
use google_lwis.Kernel.{Kernel, World, enoent, ecanceled}
use google_lwis.Event.States.Table.{find, modify}
use google_lwis.Transaction.{Transaction, TransactionInfo, EventList, ClientTransactions, list_key}
use google_lwis.Event.{event_id_none}
use google_lwis.Kernel.{lwis_get_time}
use google_lwis.Transaction.Response.{prepare_response_locked}
use google_lwis.Transaction.Valid.Submit.{check-transactions}
use google_lwis.Transaction.Submit.{
  mark_canceled, cancel_in, cancel_waiting_transaction_locked, Site, enqueue_now, stamped,
  queue_transaction_locked, event_list_find_or_create, prepare_and_queue,
  check_transaction_param_locked, lwis_transaction_submit_locked,
}

-- The first transaction with an id, in a list and in the table of the waiting ones.
abbrev pub lookup_in : List Transaction → ℕ → Option Transaction
lookup_in [] id = none
lookup_in (t ∷ ts) id = if t.info.id == id then some t else lookup_in ts id

abbrev pub lookup : List EventList → ℕ → Option Transaction
lookup [] id = none
lookup (l ∷ ls) id = elim (lookup_in l.list id) [ some t ↦ some t | none ↦ lookup ls id ]

-- A transaction as cancelling leaves it.
abbrev pub canceled : Transaction → Transaction
canceled t = record t { resp = record (t.resp) { error_code = neg ecanceled } }

mark_none : (ts : List Transaction) (id : ℕ) → mark_canceled ts id ≡ none → lookup_in ts id ≡ none
unfolding mark_canceled
mark_none [] id e = refl
mark_none (t ∷ ts) id e = ground (arith, mark_none ts id)

mark_some :
    (ts ts' : List Transaction) (id : ℕ)
    → mark_canceled ts id ≡ some ts'
    → (us vs : List Transaction) × (t : Transaction) × (ts ≡ us ++ t ∷ vs)
      × (ts' ≡ us ++ canceled t ∷ vs)
      × (t.info.id ≡ id)
      × (lookup_in us id ≡ none)
unfolding mark_canceled
mark_some [] ts' id e = absurd (ground arith)
mark_some (t ∷ ts) ts' id e = elim (Bool-cases (t.info.id == id)) [
  | inl same ↦ ([], ts, t, refl, ground arith, ground arith, refl)
  | inr different ↦ (elim (Option-cases (mark_canceled ts id)) [
    | inl missing ↦ absurd (ground arith)
    | inr (rest, there) ↦
        (let (us, vs, u, at, marked, same, first) = mark_some ts rest id there in
          (t ∷ us, vs, u, ap (λ l. t ∷ l) at, ground arith, same, ground arith))
  ])
]

cancel_none : (ls : List EventList) (id : ℕ) → cancel_in ls id ≡ none → lookup ls id ≡ none
unfolding cancel_in
cancel_none [] id e = refl
cancel_none (l ∷ ls) id e = ground (arith, mark_none l.list id, cancel_none ls id)

-- The table of waiting transactions with one of them, and what is before and behind it.
abbrev pub with_waiting :
    List EventList
    → ℕ
    → List Transaction
    → Transaction
    → List Transaction
    → List EventList
    → List EventList
with_waiting before event_id us t vs behind =
    before ++ record { event_id = event_id; list = us ++ t ∷ vs } ∷ behind

-- Two tables that differ in one transaction, which is the first with the id and canceled in the second.
pub record Differ (id : ℕ) (ls ls' : List EventList) : Type 0 where
  pub before : List EventList
  pub behind : List EventList
  pub event_id : ℕ
  pub us : List Transaction
  pub vs : List Transaction
  pub t : Transaction
  pub old : ls ≡ with_waiting before event_id us t vs behind
  pub new : ls' ≡ with_waiting before event_id us (canceled t) vs behind
  pub named : t.info.id ≡ id
  pub first : (lookup before id ≡ none) × (lookup_in us id ≡ none)

cancel_some : (ls ls' : List EventList) (id : ℕ) → cancel_in ls id ≡ some ls' → Differ id ls ls'
unfolding cancel_in
cancel_some [] ls' id e = absurd (ground arith)
cancel_some (l ∷ ls) ls' id e = elim (Option-cases (mark_canceled l.list id)) [
  | inl missing ↦ (elim (Option-cases (cancel_in ls id)) [
    | inl absent ↦ absurd (ground arith)
    | inr (rest, there) ↦
        (let d = cancel_some ls rest id there in
          record {
            before = l ∷ d.before;
            behind = d.behind;
            event_id = d.event_id;
            us = d.us;
            vs = d.vs;
            t = d.t;
            old = ap (λ x. l ∷ x) d.old;
            new = ground (arith, d.new);
            named = d.named;
            first = (ground (arith, mark_none l.list id missing, d.first), d.first.1);
          })
  ])
  | inr (ts, there) ↦
      (let (us, vs, t, at, marked, same, first) = mark_some l.list ts id there in
        record {
          before = [];
          behind = ls;
          event_id = l.event_id;
          us = us;
          vs = vs;
          t = t;
          old = ap (λ x. record { event_id = l.event_id; list = x } ∷ ls) at;
          new = ground arith;
          named = same;
          first = (refl, first);
        })
]

-- Cancelling an id that no waiting transaction has returns -ENOENT and changes nothing. Otherwise it
-- returns 0, and the client's transactions are as before but for the first waiting transaction with
-- the id, which has the error -ECANCELED where it stands: in the list of the same event, among the
-- same transactions.
pub cancel_outcome :
    (c : ClientTransactions) (id : ℕ)
    → let (code, c') = cancel_waiting_transaction_locked c id in
      ((lookup c.transaction_list id ≡ none) × (code ≡ neg enoent) × (c' ≡ c))
      ⊎ ((code ≡ 0)
          × (c' ≡ record c { transaction_list = c'.transaction_list })
          × Differ id c.transaction_list c'.transaction_list)
unfolding cancel_waiting_transaction_locked
cancel_outcome c id = elim (Option-cases (cancel_in c.transaction_list id)) [
  | inl missing ↦
      rw (missing, cancel_waiting_transaction_locked)
        (inl (cancel_none c.transaction_list id missing, refl, refl))
  | inr (table, there) ↦
      rw (there, cancel_waiting_transaction_locked)
        (inr (refl, refl, cancel_some c.transaction_list table id there))
]

-- How many transactions wait or are queued.
abbrev pub waiting_in : List EventList → ℕ
waiting_in [] = 0
waiting_in (l ∷ ls) = length l.list + waiting_in ls

abbrev pub held : ClientTransactions → ℕ
held c = waiting_in c.transaction_list + length c.process_queue_tasklet + length c.process_queue

snoc-length : (ts : List Transaction) (t : Transaction) → length (ts ++ t ∷ []) ≡ length ts + 1
snoc-length ts t = omega (arith, length-append ts (t ∷ []))

snoc-lookup : (ts : List Transaction) (t : Transaction) → lookup_in (ts ++ t ∷ []) t.info.id ≢ none
snoc-lookup [] t = ground arith
snoc-lookup (x ∷ ts) t = ground (arith, snoc-lookup ts t)

-- The list of the event that a transaction was added to, and the lists around it.
abbrev add_to : List EventList → ℕ → Transaction → List EventList
add_to table event_id t = modify list_key table event_id (λ l. record l { list = l.list ++ t ∷ [] })

add_to-waiting :
    (table : List EventList) (event_id : ℕ) (t : Transaction)
    → find list_key table event_id ≢ none
    → (waiting_in (add_to table event_id t) ≡ waiting_in table + 1)
      × (lookup (add_to table event_id t) t.info.id ≢ none)
unfolding find modify
add_to-waiting [] event_id t there = ground arith
add_to-waiting (l ∷ ls) event_id t there =
    ground (arith, snoc-length l.list t, snoc-lookup l.list t, add_to-waiting ls event_id t)

-- The client's transactions hold one with an id, waiting or queued.
abbrev pub Holds : ClientTransactions → ℕ → Type 0
Holds c id =
    (lookup c.transaction_list id ≢ none)
    ⊎ (lookup_in c.process_queue_tasklet id ≢ none)
    ⊎ (lookup_in c.process_queue id ≢ none)

-- What queueing promises: nothing changed, or one more transaction is held, under the id given.
abbrev pub Queued : ClientTransactions → ℕ → ℕ → ClientTransactions → Type 0
Queued c id ret c' =
    ((ret ≢ 0) × (c' ≡ c))
    ⊎ ((ret ≡ 0)
        × (c'.transaction_counter ≡ add64 c.transaction_counter 1)
        × (held c' ≡ held c + 1)
        × Holds c' id)

module _ (k : Kernel) {Hw : Type 0} where
  created :
      (w : World Hw) (table table' : List EventList) (event_id : ℕ)
      → (event_list_find_or_create k w table event_id).0 ≡ some table'
      → (find list_key table' event_id ≢ none) × (waiting_in table' ≡ waiting_in table)
  unfolding event_list_find_or_create find
  created w table table' event_id e = ground arith

  queue-Queued :
      (w : World Hw) (c : ClientTransactions) (t : Transaction)
      → Queued c t.info.id (queue_transaction_locked k w c t).0 (queue_transaction_locked k w c t).1
  unfolding queue_transaction_locked enqueue_now
  queue-Queued w c t = elim (Bool-cases (t.info.trigger_event_id == event_id_none)) [
    | inl at_once ↦ (elim (Bool-cases t.info.run_at_real_time) [
      | inl real_time ↦ ground (
        arith,
        snoc-length c.process_queue_tasklet (stamped t (lwis_get_time k w).0),
        snoc-lookup c.process_queue_tasklet (stamped t (lwis_get_time k w).0),
      )
      | inr deferred ↦ ground (
        arith,
        snoc-length c.process_queue (stamped t (lwis_get_time k w).0),
        snoc-lookup c.process_queue (stamped t (lwis_get_time k w).0),
      )
    ])
    | inr later ↦
        (elim (Option-cases
          (event_list_find_or_create k w c.transaction_list t.info.trigger_event_id).0) [
            | inl failed ↦ ground arith
            | inr (table, done) ↦ ground (
              arith,
              created w c.transaction_list table t.info.trigger_event_id done,
              add_to-waiting table t.info.trigger_event_id (
                  stamped t
                    (lwis_get_time k
                      (event_list_find_or_create k w c.transaction_list
                        t.info.trigger_event_id).1).0),
            )
          ])
  ]

  prepared-id :
      (w : World Hw) (n width : ℕ) (info : TransactionInfo)
      → (prepare_response_locked k w n width info).1.id ≡ n
  unfolding prepare_response_locked
  prepared-id w n width info = ground arith

  prepared-code :
      (w : World Hw) (n width : ℕ) (info : TransactionInfo)
      → (prepare_response_locked k w n width info).2 ≡ none
      → (prepare_response_locked k w n width info).0 ≢ 0
  unfolding prepare_response_locked
  prepared-code w n width info e = ground arith

  prepare-Queued :
      (width : ℕ) (s : Site Hw) (info : TransactionInfo)
      → let (ret, info', s') = prepare_and_queue k width s info in
        (info'.id ≡ s.transactions.transaction_counter)
        × Queued s.transactions s.transactions.transaction_counter ret s'.transactions
  unfolding prepare_and_queue
  prepare-Queued width s info =
      let n = s.transactions.transaction_counter in
      let p = prepare_response_locked k s.world n width info in
      let same : p.1.id ≡ n = prepared-id s.world n width info in
      elim (Option-cases p.2) [
        | inl failed ↦
            rw (failed, prepare_and_queue)
              (same, inl (prepared-code s.world n width info failed, refl))
        | inr ((r, size), done) ↦
            rw (done, prepare_and_queue)
              (
                same,
                subst
                    (λ id.
                      Queued s.transactions id
                        (queue_transaction_locked k p.3 s.transactions
                          (record { info = p.1; resp = r })).0
                        (queue_transaction_locked k p.3 s.transactions
                          (record { info = p.1; resp = r })).1)
                    same (queue-Queued p.3 s.transactions (record { info = p.1; resp = r })),
              )
      ]

  -- What submitting to a client with transactions `c` gives: a refusal that leaves them, or one more
  -- transaction, under the id that was next.
  abbrev pub Submitted : ClientTransactions → ℕ × TransactionInfo × Site Hw → Type 0
  Submitted c r =
      ((r.0 ≢ 0) × (r.2.transactions ≡ c))
      ⊎ ((r.0 ≡ 0)
          × (r.1.id ≡ c.transaction_counter)
          × (r.2.transactions.transaction_counter ≡ add64 c.transaction_counter 1)
          × (held r.2.transactions ≡ held c + 1)
          × Holds r.2.transactions r.1.id)

  prepare-Submitted :
      (width : ℕ) (s : Site Hw) (info : TransactionInfo)
      → Submitted s.transactions (prepare_and_queue k width s info)
  prepare-Submitted width s info =
      let (same, queued) = prepare-Queued width s info in
      elim queued [
        | inl refused ↦ inl refused
        | inr (done, moved, more, there) ↦ inr (
          done,
          same,
          moved,
          more,
          subst (Holds (prepare_and_queue k width s info).2.transactions) (sym same) there,
        )
      ]

  -- Submitting returns 0 exactly if it took the transaction: then the client holds one transaction
  -- more than before, under the id that goes back to the caller, which is the counter of ids at the
  -- call, and the counter has moved on by one (modulo 2 ^ 64). With any other result the client's
  -- transactions and the counter are as they were.
  pub submit_outcome :
      (width : ℕ) (s : Site Hw) (info : TransactionInfo)
      → Submitted s.transactions (lwis_transaction_submit_locked k width s info)
  unfolding lwis_transaction_submit_locked
  submit_outcome width s info =
      let (ret, info1, s1) = check_transaction_param_locked k s info info.allow_counter_eq in
      let same : s1.transactions ≡ s.transactions =
        check-transactions k s info info.allow_counter_eq in
      if-cases {A = ℕ × TransactionInfo × Site Hw} (Submitted s.transactions) (nonzero ret)
        (λ refused. inl (ground arith, same))
        (λ _.
          subst (λ c. Submitted c (prepare_and_queue k width s1 info1)) same
            (prepare-Submitted width s1 info1))
