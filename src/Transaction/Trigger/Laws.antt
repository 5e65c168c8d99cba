-- ===== src/Transaction/Trigger/Laws.antt =====
-- What an event does to the transactions that wait for it.
use google_lwis.Prelude.{
  ℕ, ◌+◌, ◌≡◌, refl, Bool, true, false, not, ◌&&◌, ◌||◌, List, [], ◌∷◌, ◌++◌, arith, nonzero, ◌==◌,
  if◌then◌else◌, select, append-nil, append_assoc, Option-cases, inl, inr,
}
use google_lwis.Kernel.{Kernel}
use google_lwis.Io.{Bus}
use google_lwis.Event.{on_next_occurrence, every_time}
use google_lwis.Transaction.{Transaction, ClientTransactions, Job, list_key}
use google_lwis.Event.States.Table.{find}
use google_lwis.Transaction.Trigger.{
  device_type_i2c, Triggered, begin_trigger, defer_transaction_locked, trigger_one, trigger_all,
  trigger_list, lwis_transaction_event_trigger, new_repeating_transaction_iteration,
}

-- Where a transaction goes, as far as it is no longer just waiting.
pub data Place : Type 0 where
  work_queue tasklet_queue event_context : Place

abbrev pub is_work_queue : Place → Bool
is_work_queue work_queue = true
is_work_queue _ = false

abbrev pub is_tasklet_queue : Place → Bool
is_tasklet_queue tasklet_queue = true
is_tasklet_queue _ = false

abbrev pub is_canceled : Transaction → Bool
is_canceled t = nonzero t.resp.error_code

module _ (dev_type : ℕ) (in_irq : Bool) where
  -- Where a transaction that is executed goes.
  abbrev pub place : Transaction → Place
  place t =
      if in_irq && dev_type == device_type_i2c
      then work_queue
      else if t.info.run_in_event_context
      then event_context
      else if t.info.run_at_real_time
      then tasklet_queue
      else work_queue

-- Whether the event is for a transaction, and whether it waits on.
abbrev pub fires : ℕ → Transaction → Bool
fires counter t =
    t.info.trigger_event_counter == on_next_occurrence
    || t.info.trigger_event_counter == counter
    || t.info.trigger_event_counter == every_time

abbrev pub stays : ℕ → Transaction → Bool
stays counter t =
    not (is_canceled t)
    && not (
        t.info.trigger_event_counter == on_next_occurrence
        || t.info.trigger_event_counter == counter)

module _ (dev_type : ℕ) (in_irq : Bool) where
  abbrev pub to_work_queue : ℕ → Transaction → Bool
  to_work_queue counter t =
      is_canceled t || fires counter t && is_work_queue (place dev_type in_irq t)

  abbrev pub to_tasklet_queue : ℕ → Transaction → Bool
  to_tasklet_queue counter t =
      not (is_canceled t) && fires counter t && is_tasklet_queue (place dev_type in_irq t)

abbrev just_if : Bool → Transaction → List Transaction
just_if b t = if b then t ∷ [] else []

module _ (k : Kernel) {Hw : Type 0} (bus : Bus Hw) (dev_type : ℕ) (in_irq : Bool) where
  one_placed :
      (counter : ℕ) (s : Triggered Hw) (t : Transaction)
      → k.alloc s.job.world.calls ≡ true
      → k.alloc (s.job.world.calls + 1) ≡ true
      → let (kept, s') = trigger_one k bus dev_type in_irq counter s t in
        (kept ≡ just_if (stays counter t) t)
        × (s'.queue ≡ s.queue ++ just_if (to_work_queue dev_type in_irq counter t) t)
        × (s'.tasklet ≡ s.tasklet ++ just_if (to_tasklet_queue dev_type in_irq counter t) t)
  unfolding trigger_one defer_transaction_locked new_repeating_transaction_iteration
  one_placed counter s t first second = ground (arith, append-nil s.queue, append-nil s.tasklet)

  -- Provided that every allocation succeeds, an event leaves waiting exactly the transactions that
  -- are neither canceled nor due at this counter (those that run every time among them), and appends,
  -- in their order, to the work queue the canceled ones and those that fire and run there, and to the
  -- tasklet's queue those that fire and run there. On an I2C device in interrupt context whatever
  -- fires goes to the work queue.
  pub trigger_all-places :
      (ts : List Transaction) (counter : ℕ) (s : Triggered Hw)
      → ((n : ℕ) → k.alloc n ≡ true)
      → let (kept, s') = trigger_all k bus dev_type in_irq counter s ts in
        (kept ≡ select (stays counter) ts)
        × (s'.queue ≡ s.queue ++ select (to_work_queue dev_type in_irq counter) ts)
        × (s'.tasklet ≡ s.tasklet ++ select (to_tasklet_queue dev_type in_irq counter) ts)
  unfolding trigger_all
  trigger_all-places [] counter s plenty =
      (refl, ground (arith, append-nil s.queue), ground (arith, append-nil s.tasklet))
  trigger_all-places (t ∷ ts) counter s plenty =
      let s1 = (trigger_one k bus dev_type in_irq counter s t).1 in
      ground (
        arith,
        one_placed counter s t (plenty s.job.world.calls) (plenty (s.job.world.calls + 1)),
        trigger_all-places ts counter s1 plenty,
        append_assoc s.queue (just_if (to_work_queue dev_type in_irq counter t) t)
            (select (to_work_queue dev_type in_irq counter) ts),
        append_assoc s.tasklet (just_if (to_tasklet_queue dev_type in_irq counter t) t)
            (select (to_tasklet_queue dev_type in_irq counter) ts),
      )

  one_on_i2c :
      (counter : ℕ) (s : Triggered Hw) (t : Transaction)
      → (in_irq && dev_type == device_type_i2c) ≡ true
      → let s' = (trigger_one k bus dev_type in_irq counter s t).1 in
        (s'.job.world.hw ≡ s.job.world.hw) × (s'.job.pending ≡ s.job.pending)
  unfolding trigger_one defer_transaction_locked new_repeating_transaction_iteration
  one_on_i2c counter s t i2c = ground arith

  all_on_i2c :
      (ts : List Transaction) (counter : ℕ) (s : Triggered Hw)
      → (in_irq && dev_type == device_type_i2c) ≡ true
      → let s' = (trigger_all k bus dev_type in_irq counter s ts).1 in
        (s'.job.world.hw ≡ s.job.world.hw) × (s'.job.pending ≡ s.job.pending)
  unfolding trigger_all
  all_on_i2c [] counter s i2c = (refl, refl)
  all_on_i2c (t ∷ ts) counter s i2c =
      let s1 = (trigger_one k bus dev_type in_irq counter s t).1 in
      ground (arith, one_on_i2c counter s t i2c, all_on_i2c ts counter s1 i2c)

  list_on_i2c :
      (c : ClientTransactions) (ts : List Transaction) (event_id counter : ℕ) (job : Job Hw)
      → (in_irq && dev_type == device_type_i2c) ≡ true
      → let job' = (trigger_list k bus dev_type in_irq c event_id counter job ts).1 in
        (job'.world.hw ≡ job.world.hw) × (job'.pending ≡ job.pending)
  unfolding trigger_list
  list_on_i2c c [] event_id counter job i2c = (refl, refl)
  list_on_i2c c (t ∷ ts) event_id counter job i2c =
      ground (arith, all_on_i2c (t ∷ ts) counter (begin_trigger c job) i2c)

  -- In interrupt context an I2C device is not accessed: whatever an event triggers, and whatever the
  -- allocations do, the registers stay as they were and no event becomes pending.
  pub event_trigger-i2c :
      (c : ClientTransactions) (event_id counter : ℕ) (job : Job Hw)
      → (in_irq && dev_type == device_type_i2c) ≡ true
      → let job' =
          (lwis_transaction_event_trigger k bus dev_type in_irq c event_id counter job).1 in
        (job'.world.hw ≡ job.world.hw) × (job'.pending ≡ job.pending)
  unfolding lwis_transaction_event_trigger
  event_trigger-i2c c event_id counter job i2c =
      elim (Option-cases (find list_key c.transaction_list event_id)) [
        | inl missing ↦ rw (missing, lwis_transaction_event_trigger) (refl, refl)
        | inr (l, there) ↦
            rw (there, lwis_transaction_event_trigger)
              (list_on_i2c c l.list event_id counter job i2c)
      ]
