-- ===== src/Transaction.antt =====
-- lwis_transaction.h, lwis_commands.h: transactions; lwis_device.h: what a client keeps of them.
pub mod Process
pub mod Response
pub mod Trigger
pub mod Submit
pub mod Valid
pub mod Cleanup
use google_lwis.Prelude.{ℕ, ◌+◌, Bool, false, List, [], leb, if◌then◌else◌, set}
use google_lwis.Kernel.{World}
use google_lwis.Io.{IoEntry}
use google_lwis.Event.{ResponseHeader, EventInfo}

-- `struct lwis_transaction_info`; `num_io_entries` is the length of `io_entries`.
pub record TransactionInfo : Type 0 where
  pub trigger_event_id : ℕ
  pub trigger_event_counter : ℕ
  pub io_entries : List IoEntry
  pub run_in_event_context : Bool
  pub run_at_real_time : Bool
  pub emit_success_event_id : ℕ
  pub emit_error_event_id : ℕ
  pub allow_counter_eq : Bool
  pub id : ℕ
  pub current_trigger_event_counter : ℕ
  pub submission_timestamp_ns : ℕ

-- `struct lwis_transaction`, with the header that `resp` points to.
pub record Transaction : Type 0 where
  pub info : TransactionInfo
  pub resp : ResponseHeader

-- `struct lwis_transaction_event_list`
pub record EventList : Type 0 where
  pub event_id : ℕ
  pub list : List Transaction

-- `struct lwis_transaction_history`
pub record TransactionHistory : Type 0 where
  pub info : TransactionInfo
  pub process_timestamp : ℕ
  pub process_duration_ns : ℕ

-- `struct lwis_client_debug_info`
pub record DebugInfo : Type 0 where
  pub transaction_hist : List TransactionHistory
  pub cur_transaction_hist_idx : ℕ

abbrev pub transaction_debug_history_size : ℕ
transaction_debug_history_size = 8

-- The fields of `struct lwis_client` that belong to transactions. `tasklet_scheduled` and
-- `work_queued` say whether the tasklet and the work item are due to run.
pub record ClientTransactions : Type 0 where
  pub transaction_list : List EventList
  pub process_queue_tasklet : List Transaction
  pub process_queue : List Transaction
  pub tasklet_scheduled : Bool
  pub work_queued : Bool
  pub transaction_counter : ℕ
  pub debug_info : DebugInfo

abbrev pub list_key : EventList → ℕ
list_key l = l.event_id

-- What processing works on: the world, the events pending, and the history.
pub record Job (Hw : Type 0) : Type 0 where
  pub world : World Hw
  pub pending : List EventInfo
  pub debug_info : DebugInfo

unfoldable pub save_transaction_to_history : DebugInfo → TransactionInfo → ℕ → ℕ → DebugInfo
save_transaction_to_history d info process_timestamp process_duration_ns =
    let entry : TransactionHistory = record {
      info = info;
      process_timestamp = process_timestamp;
      process_duration_ns = process_duration_ns;
    } in
    let next = d.cur_transaction_hist_idx + 1 in
    record {
      transaction_hist = set d.transaction_hist d.cur_transaction_hist_idx entry;
      cur_transaction_hist_idx = if leb transaction_debug_history_size next then 0 else next;
    }

unfoldable pub lwis_transaction_init : DebugInfo → ClientTransactions
lwis_transaction_init d = record {
  transaction_list = [];
  process_queue_tasklet = [];
  process_queue = [];
  tasklet_scheduled = false;
  work_queued = false;
  transaction_counter = 0;
  debug_info = d;
}
