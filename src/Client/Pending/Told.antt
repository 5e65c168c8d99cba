-- ===== src/Client/Pending/Told.antt =====
-- lwis_pending_events_emit: how many transactions wait and how many events are pending, before and
-- after the clients of a device are told of an event or of an error.
use google_lwis.Prelude.{
  ℕ, ◌+◌, ◌≤◌, ◌≡◌, refl, Bool, List, [], ◌∷◌, ◌++◌, arith, length, ap, neg, not, ◌||◌, slt64, ◌==◌,
  All, All-append, if-cases, nonzero,
}
use google_lwis.Kernel.{Kernel, World, kmalloc, eoverflow}
use google_lwis.Io.{Bus}
use google_lwis.Event.{
  EventInfo, Payload, null, start_of_error_range, start_of_specialized_range, event_queue_overflow,
}
use google_lwis.Event.Queue.{push_back}
use google_lwis.Transaction.Submit.Laws.{waiting_in}
use google_lwis.Client.{Client}
use google_lwis.Client.Emit.{
  push_errors, lwis_device_error_event_emit, queue_event, trigger_client, notify_clients,
}
use google_lwis.Client.Pending.Weight.{ClientOnce, trigger-NotMore}

-- The transactions that wait in a list of clients.
abbrev pub waiting_for : List Client → ℕ
waiting_for [] = 0
waiting_for (c ∷ cs) = waiting_in c.transactions.transaction_list + waiting_for cs

waiting_for-append :
    (cs ds : List Client) → waiting_for (cs ++ ds) ≡ waiting_for cs + waiting_for ds
waiting_for-append [] ds = omega arith
waiting_for-append (c ∷ cs) ds = omega (arith, waiting_for-append cs ds)

module _ (k : Kernel) {Hw : Type 0} where
  -- Telling clients of an error leaves their transactions alone.
  errors-Once :
      (w : World Hw) (e : EventInfo) (cs : List Client)
      → All ClientOnce cs
      → let (cs', _) = push_errors k w e cs in
        (waiting_for cs' ≡ waiting_for cs) × All ClientOnce cs'
  unfolding push_errors
  errors-Once w e [] once = (refl, tt)
  errors-Once w e (c ∷ cs) once =
      let (same, onces) = errors-Once (kmalloc k w).1 e cs once.1 in
      if-cases {A = List Client × World Hw}
        (λ r. (waiting_for r.0 ≡ waiting_for (c ∷ cs)) × All ClientOnce r.0)
        (not (kmalloc k w).0 || nonzero (push_back c.error_event_queue e).0) (λ _. (refl, once))
        (λ _. (omega (arith, same), (once.0, onces)))

  error_emit-Once :
      (w : World Hw) (cs : List Client) (event_id : ℕ) (payload : Payload) (size : ℕ)
      → All ClientOnce cs
      → let (cs', _) = lwis_device_error_event_emit k w cs event_id payload size in
        (waiting_for cs' ≡ waiting_for cs) × All ClientOnce cs'
  unfolding lwis_device_error_event_emit
  error_emit-Once w cs event_id payload size once =
      if-cases {A = List Client × World Hw}
        (λ r. (waiting_for r.0 ≡ waiting_for cs) × All ClientOnce r.0)
        (slt64 event_id start_of_error_range || not (slt64 event_id start_of_specialized_range))
        (λ _. (refl, once)) (λ _. errors-Once _ _ cs once)

  queue-transactions :
      (w : World Hw) (c : Client) (e : EventInfo)
      → (queue_event k w c e).1.transactions ≡ c.transactions
  unfolding queue_event
  queue-transactions w c e = ground arith

module _ (k : Kernel) {Hw : Type 0} (bus : Bus Hw) (in_irq : Bool) where
  client-Once :
      (w : World Hw) (pending : List EventInfo) (dev_type : ℕ) (c : Client) (e : EventInfo)
      → ClientOnce c
      → let (c', pending', _) = trigger_client k bus in_irq w pending dev_type c e in
        (waiting_in c'.transactions.transaction_list + length pending'
          ≤ waiting_in c.transactions.transaction_list + length pending)
        × ClientOnce c'
  unfolding trigger_client
  client-Once w pending dev_type c e once =
      trigger-NotMore k bus dev_type in_irq c.transactions e.event_id e.event_counter _ once

  -- What is waiting and what is pending after the clients were told.
  abbrev pub Told : ℕ → ℕ × List Client × List EventInfo × World Hw → Type 0
  Told n r = (waiting_for r.1 + length r.2 ≤ n) × All ClientOnce r.1

  pub notify-Told :
      (w : World Hw) (pending : List EventInfo) (dev_type : ℕ) (e : EventInfo)
      (before cs : List Client)
      → All ClientOnce before
      → All ClientOnce cs
      → Told
          (waiting_for before + waiting_for cs + length pending)
          (notify_clients k bus in_irq w pending dev_type e before cs)
  unfolding notify_clients
  notify-Told w pending dev_type e before [] once_before once = (omega arith, once_before)
  notify-Told w pending dev_type e before (c ∷ cs) once_before once =
      let n = waiting_for before + waiting_for (c ∷ cs) + length pending in
      let (ret, c1, w1) = queue_event k w c e in
      let once1 : ClientOnce c1 = rw (queue-transactions k w c e) once.0 in
      let (c2, pending2, w2) = trigger_client k bus in_irq w1 pending dev_type c1 e in
      let (le, once2) = client-Once w1 pending dev_type c1 e once1 in
      let all = before ++ c ∷ cs in
      let once_all : All ClientOnce all = All-append ClientOnce before (c ∷ cs) once_before once in
      let (same, onces) = error_emit-Once k w1 all event_queue_overflow null 0 once_all in
      let (rest_le, rest_once) =
        notify-Told w2 pending2 dev_type e (before ++ c2 ∷ []) cs
          (All-append ClientOnce before (c2 ∷ []) once_before (once2, tt)) once.1 in
      if-cases {A = ℕ × List Client × List EventInfo × World Hw} (Told n) (ret == 0)
        (λ _. (
          omega (
            arith,
            rest_le,
            le,
            waiting_for-append before (c2 ∷ []),
            ap (λ t. waiting_in t.transaction_list) (queue-transactions k w c e),
          ),
          rest_once,
        ))
        (λ _.
          if-cases {A = ℕ × List Client × List EventInfo × World Hw} (Told n) (ret == neg eoverflow)
            (λ _. (omega (arith, same, waiting_for-append before (c ∷ cs)), onces))
            (λ _. (omega (arith, waiting_for-append before (c ∷ cs)), once_all)))

  pub clients-Told :
      (w : World Hw) (pending : List EventInfo) (dev_type : ℕ) (e : EventInfo) (cs : List Client)
      → All ClientOnce cs
      → Told
          (waiting_for cs + length pending)
          (notify_clients k bus in_irq w pending dev_type e [] cs)
  clients-Told w pending dev_type e cs once =
      let (le, onces) = notify-Told w pending dev_type e [] cs tt once in (omega (arith, le), onces)
