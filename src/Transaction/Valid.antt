-- ===== src/Transaction/Valid.antt =====
-- The invariant of a client's transactions: every transaction that waits or is queued has an id that
-- was given out, what is queued is scheduled, and the history index is in range.
pub mod Trigger
pub mod Submit
use google_lwis.Prelude.{
  ℕ, ◌+◌, ◌<◌, ◌≤◌, ◌≡◌, refl, true, List, [], ◌∷◌, ◌++◌, arith, length, length-set, All,
  All-append, All-map,
}
use google_lwis.Transaction.{
  TransactionInfo, Transaction, TransactionHistory, EventList, DebugInfo, ClientTransactions,
  transaction_debug_history_size, save_transaction_to_history, lwis_transaction_init,
}
use google_lwis.Transaction.Trigger.{is_nonempty}

abbrev pub Below : ℕ → Transaction → Type 0
Below n t = t.info.id < n

abbrev pub ListBelow : ℕ → EventList → Type 0
ListBelow n l = All (Below n) l.list

pub record HistoryIsValid (d : DebugInfo) : Type 0 where
  pub size : length d.transaction_hist ≡ transaction_debug_history_size
  pub index : d.cur_transaction_hist_idx < transaction_debug_history_size

pub record IsValid (c : ClientTransactions) : Type 0 where
  pub lists : All (ListBelow c.transaction_counter) c.transaction_list
  pub tasklet : All (Below c.transaction_counter) c.process_queue_tasklet
  pub queue : All (Below c.transaction_counter) c.process_queue
  pub tasklet_due : is_nonempty c.process_queue_tasklet ≡ true → c.tasklet_scheduled ≡ true
  pub work_due : is_nonempty c.process_queue ≡ true → c.work_queued ≡ true
  pub history : HistoryIsValid c.debug_info

pub save-HistoryIsValid :
    (d : DebugInfo) (info : TransactionInfo) (start duration : ℕ)
    → HistoryIsValid d
    → HistoryIsValid (save_transaction_to_history d info start duration)
unfolding save_transaction_to_history
save-HistoryIsValid d info start duration v =
    let entry : TransactionHistory = record {
      info = info;
      process_timestamp = start;
      process_duration_ns = duration;
    } in
    ground (arith, length-set d.transaction_hist d.cur_transaction_hist_idx entry)

pub Below-mono : {m n : ℕ} → m ≤ n → (t : Transaction) → Below m t → Below n t
Below-mono h t b = omega arith

pub ListBelow-mono : {m n : ℕ} → m ≤ n → (l : EventList) → ListBelow m l → ListBelow n l
ListBelow-mono {m} {n} h l b = All-map {P = Below m} {Q = Below n} (Below-mono h) l.list b

pub snoc-All :
    (n : ℕ) (ts : List Transaction) (t : Transaction)
    → All (Below n) ts
    → Below n t
    → All (Below n) (ts ++ t ∷ [])
snoc-All n ts t h b = All-append (Below n) ts (t ∷ []) h (b, tt)

pub init-IsValid : (d : DebugInfo) → HistoryIsValid d → IsValid (lwis_transaction_init d)
unfolding lwis_transaction_init is_nonempty
init-IsValid d v = record {
  lists = tt;
  tasklet = tt;
  queue = tt;
  tasklet_due = λ h. cc;
  work_due = λ h. cc;
  history = v;
}
