-- ===== src/Tests/Transactions.antt =====
-- Transactions of a client of the top device.
use google_lwis.Prelude.{
  ℕ, ◌+◌, ◌^◌, ◌<◌, ◌≤◌, ◌≡◌, ◌⊎◌, refl, true, false, none, List, [], ◌∷◌, ◌++◌, arith, neg, select,
  add64,
}
use google_lwis.Kernel.{enoent, ecanceled}
use google_lwis.Io.{IoEntry, read_batch, poll}
use google_lwis.Io.Scratch.{Scratch}
use google_lwis.Io.Scratch.Bounds.{top_bus-IsBus}
use google_lwis.Event.{on_next_occurrence, every_time, sizeof_response_header}
use google_lwis.Transaction.{
  TransactionInfo, Transaction, TransactionHistory, DebugInfo, ClientTransactions, Job,
}
use google_lwis.Transaction.Process.{process_queue, run_entries}
use google_lwis.Transaction.Process.Laws.{Executed, run_entries-Executed}
use google_lwis.Transaction.Process.Reports.{answers, process_queue-answers}
use google_lwis.Transaction.Response.{
  new_response, read_sizes, response_size, prepare_response_locked,
}
use google_lwis.Transaction.Response.Fits.{
  extent, space, run_entries-extent-le, run_entries_overruns,
}
use google_lwis.Transaction.Trigger.{Triggered, trigger_all, lwis_transaction_event_trigger}
use google_lwis.Transaction.Trigger.Laws.{
  stays, to_work_queue, to_tasklet_queue, trigger_all-places, event_trigger-i2c,
}
use google_lwis.Transaction.Submit.{
  Site, lwis_transaction_submit_locked, cancel_waiting_transaction_locked,
}
use google_lwis.Transaction.Submit.Laws.{lookup, Differ, cancel_outcome, Submitted, submit_outcome}
use google_lwis.Transaction.Valid.{IsValid}
use google_lwis.Transaction.Valid.Trigger.{event_trigger-IsValid}
use google_lwis.Transaction.Valid.Submit.{submit-IsValid}
use google_lwis.Tests.{
  kernel, scratch, bus, world, seven, first_four, huge, write_nine, write_outside, read_two,
}

-- Transaction `id`, waiting for the given count of event 4097.
abbrev pub info : ℕ → ℕ → List IoEntry → TransactionInfo
info id counter entries = record {
  trigger_event_id = 4097;
  trigger_event_counter = counter;
  io_entries = entries;
  run_in_event_context = false;
  run_at_real_time = false;
  emit_success_event_id = 2 ^ 63 + 1;
  emit_error_event_id = 2 ^ 63 + 2 ^ 62 + 1;
  allow_counter_eq = false;
  id = id;
  current_trigger_event_counter = 0;
  submission_timestamp_ns = 0;
}

abbrev pub transaction : ℕ → ℕ → List IoEntry → Transaction
transaction id counter entries = record {
  info = info id counter entries;
  resp = new_response id 1 entries;
}

abbrev pub good : List IoEntry
good = read_two ∷ write_nine ∷ read_batch first_four ∷ poll seven ∷ []

-- 25, 28 and no bytes of results behind the header.
run_entries-extent-le_example :
    let p = run_entries kernel bus world (transaction 0 1 good) false in
    (extent p.results ≤ space p.results)
    × (sizeof_response_header + space p.results ≤ 85)
    × (p.error_code ≡ 0
        → (sizeof_response_header + space p.results ≡ 85)
          × (add64 sizeof_response_header (transaction 0 1 good).resp.results_size_bytes ≡ 85))
unfolding prepare_response_locked new_response response_size read_sizes
run_entries-extent-le_example =
    run_entries-extent-le kernel bus (top_bus-IsBus 8) world world 0 (info 0 1 good)
      (transaction 0 1 good) 85 false refl refl (omega arith)

run_entries-Executed_example :
    let t = transaction 0 1 (read_two ∷ write_outside ∷ write_nine ∷ []) in
    Executed kernel bus false world t.info.io_entries (run_entries kernel bus world t false)
unfolding new_response
run_entries-Executed_example =
    run_entries-Executed kernel bus false world
      (transaction 0 1 (read_two ∷ write_outside ∷ write_nine ∷ [])) refl

run_entries_overruns_example :
    let t = transaction 0 1 (read_batch huge ∷ []) in
    t.resp.results_size_bytes < extent (run_entries kernel bus world t false).results
run_entries_overruns_example =
    run_entries_overruns kernel bus (top_bus-IsBus 8) world (transaction 0 1 (read_batch huge ∷ []))
      huge [] 0 false refl refl (omega arith)

abbrev none_yet : TransactionHistory
none_yet = record { info = info 0 0 []; process_timestamp = 0; process_duration_ns = 0 }

abbrev pub history : DebugInfo
history = record {
  transaction_hist =
      none_yet ∷ none_yet ∷ none_yet ∷ none_yet ∷ none_yet ∷ none_yet ∷ none_yet ∷ none_yet ∷ [];
  cur_transaction_hist_idx = 7;
}

-- Three transactions wait for one event: one for its next occurrence, one for all, one for its 7th.
abbrev three : List Transaction
three =
    transaction 0 on_next_occurrence good
    ∷ transaction 1 every_time (write_nine ∷ [])
    ∷ transaction 2 7 (read_two ∷ [])
    ∷ []

abbrev client : ClientTransactions
client = record {
  transaction_list = record { event_id = 4097; list = three } ∷ [];
  process_queue_tasklet = [];
  process_queue = [];
  tasklet_scheduled = false;
  work_queued = false;
  transaction_counter = 3;
  debug_info = history;
}

client-IsValid : IsValid client
unfolding google_lwis.Transaction.Trigger.is_nonempty
client-IsValid = record {
  lists = ((omega arith, (omega arith, (omega arith, tt))), tt);
  tasklet = tt;
  queue = tt;
  tasklet_due = λ e. cc;
  work_due = λ e. cc;
  history = record { size = refl; index = omega arith };
}

abbrev job : Job Scratch
job = record { world = world; pending = []; debug_info = history }

abbrev pub site : Site Scratch
site = record { world = world; device_states = []; client_states = []; transactions = client }

abbrev nothing_queued : Triggered Scratch
nothing_queued = record { job = job; tasklet = []; queue = [] }

trigger_all-places_example :
    let (kept, s') = trigger_all kernel bus 0 false 5 nothing_queued three in
    (kept ≡ select (stays 5) three)
    × (s'.queue ≡ [] ++ select (to_work_queue 0 false 5) three)
    × (s'.tasklet ≡ [] ++ select (to_tasklet_queue 0 false 5) three)
trigger_all-places_example =
    trigger_all-places kernel bus 0 false three 5 nothing_queued (λ n. refl)

event_trigger-IsValid_example :
    IsValid (lwis_transaction_event_trigger kernel bus 0 false client 4097 7 job).0
event_trigger-IsValid_example =
    event_trigger-IsValid kernel bus 0 false client 4097 7 job client-IsValid

event_trigger-i2c_example :
    let job' = (lwis_transaction_event_trigger kernel bus 1 true client 4097 7 job).1 in
    (job'.world.hw ≡ scratch) × (job'.pending ≡ [])
event_trigger-i2c_example = event_trigger-i2c kernel bus 1 true client 4097 7 job refl

submit_outcome_example :
    Submitted kernel client (lwis_transaction_submit_locked kernel 1 site (info 0 9 good))
submit_outcome_example = submit_outcome kernel 1 site (info 0 9 good)

submit-IsValid_example :
    IsValid (lwis_transaction_submit_locked kernel 1 site (info 0 9 good)).2.transactions
submit-IsValid_example = submit-IsValid kernel 1 site (info 0 9 good) client-IsValid (omega arith)

cancel_outcome_example :
    let (code, c') = cancel_waiting_transaction_locked client 1 in
    ((lookup client.transaction_list 1 ≡ none) × (code ≡ neg enoent) × (c' ≡ client))
    ⊎ ((code ≡ 0)
        × (c' ≡ record client { transaction_list = c'.transaction_list })
        × Differ 1 client.transaction_list c'.transaction_list)
cancel_outcome_example = cancel_outcome client 1

-- A transaction that was canceled while it waited, and one that was not.
abbrev canceled_first : List Transaction
canceled_first =
    record (transaction 4 1 good) {
      resp = record (new_response 4 1 good) { error_code = neg ecanceled };
    }
    ∷ transaction 5 1 good
    ∷ []

process_queue-answers_example :
    answers (process_queue kernel bus job canceled_first false).pending ≡ 4 ∷ 5 ∷ []
unfolding new_response
process_queue-answers_example =
    process_queue-answers kernel bus canceled_first job false (λ n. refl)
      ((refl, refl), ((refl, refl), tt))
