-- ===== src/Transaction/Trigger.antt =====
-- lwis_transaction.c: what an event triggers. The deferred transactions are appended to the two
-- process queues of the client, or processed at once.
pub mod Laws
use google_lwis.Prelude.{
  ℕ, Bool, true, false, ◌&&◌, ◌||◌, Option, none, some, List, [], ◌∷◌, ◌++◌, neg, nonzero, ◌==◌,
  if◌then◌else◌,
}
use google_lwis.Kernel.{Kernel, World, kmalloc, enomem}
use google_lwis.Io.{Bus}
use google_lwis.Event.{on_next_occurrence, every_time}
use google_lwis.Event.States.Table.{find, modify}
use google_lwis.Transaction.{Transaction, EventList, ClientTransactions, list_key, Job}
use google_lwis.Transaction.Process.{process_transaction}

-- DEVICE_TYPE_I2C of lwis_commands.h.
abbrev pub device_type_i2c : ℕ
device_type_i2c = 1

-- The work in hand, and the two process queues of the client.
pub record Triggered (Hw : Type 0) : Type 0 where
  pub job : Job Hw
  pub tasklet : List Transaction
  pub queue : List Transaction

abbrev pub enqueue : {Hw : Type 0} → Triggered Hw → Transaction → Triggered Hw
enqueue s t = record s { queue = s.queue ++ t ∷ [] }

abbrev pub due : ℕ → Transaction → Bool
due event_counter t =
    t.info.trigger_event_counter == on_next_occurrence
    || t.info.trigger_event_counter == event_counter

abbrev pub repeats : Transaction → Bool
repeats t = t.info.trigger_event_counter == every_time

abbrev pub begin_trigger : {Hw : Type 0} → ClientTransactions → Job Hw → Triggered Hw
begin_trigger c job = record {
  job = record job { debug_info = c.debug_info };
  tasklet = c.process_queue_tasklet;
  queue = c.process_queue;
}

unfoldable pub is_nonempty : List Transaction → Bool
is_nonempty [] = false
is_nonempty (t ∷ ts) = true

-- The list is written back, and what is queued is scheduled.
unfoldable pub finish_trigger :
    {Hw : Type 0}
    → ClientTransactions
    → ℕ
    → List Transaction
    → Triggered Hw
    → ClientTransactions × Job Hw
unfolding is_nonempty
finish_trigger c event_id kept s = (
  record c {
    transaction_list = modify list_key c.transaction_list event_id (λ l. record l { list = kept });
    process_queue_tasklet = s.tasklet;
    process_queue = s.queue;
    tasklet_scheduled = c.tasklet_scheduled || is_nonempty s.tasklet;
    work_queued = c.work_queued || is_nonempty s.queue;
    debug_info = s.job.debug_info;
  },
  s.job,
)

module _ (k : Kernel) {Hw : Type 0} where
  -- The new instance shares the entries and copies the header of the response.
  unfoldable pub new_repeating_transaction_iteration :
      World Hw → Transaction → Option Transaction × World Hw
  new_repeating_transaction_iteration w t =
      let (instance_done, w1) = kmalloc k w in
      let (resp_done, w2) = kmalloc k w1 in
      if instance_done then (if resp_done then (some t, w2) else (none, w2)) else (none, w1)

module _ (k : Kernel) {Hw : Type 0} (bus : Bus Hw) (dev_type : ℕ) (in_irq : Bool) where
  unfoldable pub defer_transaction_locked : Triggered Hw → Transaction → Triggered Hw
  defer_transaction_locked s t =
      if in_irq && dev_type == device_type_i2c
      then enqueue s t
      else if t.info.run_in_event_context
      then record s { job = (process_transaction k bus s.job t in_irq).1 }
      else if t.info.run_at_real_time
      then record s { tasklet = s.tasklet ++ t ∷ [] }
      else enqueue s t

  -- What becomes of one transaction of the event list: what stays in the list, and the work.
  unfoldable pub trigger_one : ℕ → Triggered Hw → Transaction → List Transaction × Triggered Hw
  trigger_one event_counter s t =
      let (new_instance, w) = new_repeating_transaction_iteration k s.job.world t in
      let s' = record s { job = record (s.job) { world = w } } in
      if nonzero t.resp.error_code
      then ([], enqueue s t)
      else if due event_counter t
      then ([], defer_transaction_locked s t)
      else if repeats t
      then elim new_instance [
        | none ↦ ([], enqueue s' (record t { resp = record (t.resp) { error_code = neg enomem } }))
        | some i ↦ (t ∷ [], defer_transaction_locked s' i)
      ]
      else (t ∷ [], s)

  unfoldable pub trigger_all : ℕ → Triggered Hw → List Transaction → List Transaction × Triggered Hw
  trigger_all event_counter s [] = ([], s)
  trigger_all event_counter s (t ∷ ts) =
      let (kept, s1) = trigger_one event_counter s t in
      let (kept', s2) = trigger_all event_counter s1 ts in (kept ++ kept', s2)

  unfoldable pub trigger_list :
      ClientTransactions → ℕ → ℕ → Job Hw → List Transaction → ClientTransactions × Job Hw
  unfolding finish_trigger trigger_all
  trigger_list c event_id event_counter job [] = (c, job)
  trigger_list c event_id event_counter job (t ∷ ts) =
      let (kept, s') = trigger_all event_counter (begin_trigger c job) (t ∷ ts) in
      finish_trigger c event_id kept s'

  -- The result is always 0. The history of the client is the one in its own record.
  unfoldable pub lwis_transaction_event_trigger :
      ClientTransactions → ℕ → ℕ → Job Hw → ClientTransactions × Job Hw
  unfolding trigger_list
  lwis_transaction_event_trigger c event_id event_counter job =
      elim (find list_key c.transaction_list event_id) [
        | none ↦ (c, job)
        | some l ↦ trigger_list c event_id event_counter job l.list
      ]
