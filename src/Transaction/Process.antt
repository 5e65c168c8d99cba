-- ===== src/Transaction/Process.antt =====
-- lwis_transaction.c: process_transaction and cancel_transaction. Both free the transaction, which is
-- not modelled. A device without `register_io` is not modelled: the code would call NULL.
pub mod Laws
pub mod Reports
use google_lwis.Prelude.{
  ℕ, zero, suc, ◌+◌, ◌/◌, ◌%◌, Bool, true, false, List, [], ◌∷◌, ◌++◌, neg, nonzero, add64, sub64,
  if◌then◌else◌,
}
use google_lwis.Kernel.{Kernel, World, lwis_get_time, einval}
use google_lwis.Io.{
  IoEntry, read, read_batch, write, write_batch, modify, poll, read_assert, unrecognized, Bus,
  reg_value_bytewidth, read_value, read_bytes,
}
use google_lwis.Io.Access.{barrier}
use google_lwis.Io.Poll.{lwis_entry_poll, lwis_entry_read_assert}
use google_lwis.Event.{
  IoResult, ResponseHeader, sizeof_response_header, EventInfo, Payload, response,
}
use google_lwis.Event.Queue.{lwis_pending_event_push}
use google_lwis.Transaction.{TransactionInfo, Transaction, Job, save_transaction_to_history}

-- The first n bytes of a value in memory, least significant first.
unfoldable pub value_bytes : ℕ → ℕ → List ℕ
value_bytes zero val = []
value_bytes (suc n) val = val % 256 ∷ value_bytes n (val / 256)

-- How one entry went: the value left in `ret`, the error to be stored (0 if none), and what was
-- written to the response buffer. A failed read has written its header and no values.
pub record Done (Hw : Type 0) : Type 0 where
  pub ret : ℕ
  pub error : ℕ
  pub written : List IoResult
  pub world : World Hw

-- The state of the loop over the entries.
pub record Progress (Hw : Type 0) : Type 0 where
  pub ret : ℕ
  pub error_code : ℕ
  pub completion_index : ℕ
  pub results : List IoResult
  pub world : World Hw

abbrev io_result : ℕ → ℕ → ℕ → List ℕ → IoResult
io_result bid offset num_value_bytes values = record {
  bid = bid;
  offset = offset;
  num_value_bytes = num_value_bytes;
  values = values;
}

module _ (k : Kernel) {Hw : Type 0} (bus : Bus Hw) where
  -- `vops.register_io(lwis_dev, entry, native_value_bitwidth)`
  abbrev pub access : World Hw → IoEntry → ℕ × IoEntry × World Hw
  access w e =
      let (ret, e', hw') = bus.register_io w.hw e bus.native_value_bitwidth in
      (ret, e', record w { hw = hw' })

  abbrev plain : World Hw → IoEntry → Done Hw
  plain w e =
      let (ret, e', w') = access w e in record { ret = ret; error = ret; written = []; world = w' }

  -- One round of the loop. An entry of unknown type leaves `ret`, which is 0 by then.
  unfoldable pub process_entry : World Hw → Bool → IoEntry → Done Hw
  process_entry w in_irq (write r) = plain w (write r)
  process_entry w in_irq (write_batch b) = plain w (write_batch b)
  process_entry w in_irq (modify m) = plain w (modify m)
  process_entry w in_irq (read r) =
      let (ret, e', w') = access w (read r) in
      let width = reg_value_bytewidth bus in
      let values = if nonzero ret then [] else value_bytes width (read_value e') in
      record {
        ret = ret;
        error = ret;
        written = io_result r.bid r.offset width values ∷ [];
        world = w';
      }
  process_entry w in_irq (read_batch b) =
      let (ret, e', w') = access w (read_batch (record b { buf = [] })) in
      record {
        ret = ret;
        error = ret;
        written = io_result b.bid b.offset b.size_in_bytes (read_bytes e') ∷ [];
        world = w';
      }
  process_entry w in_irq (poll a) =
      let (ret, w') = lwis_entry_poll k bus w a in_irq in
      record { ret = ret; error = ret; written = []; world = w' }
  process_entry w in_irq (read_assert a) =
      let (ret, w') = lwis_entry_read_assert bus w a in
      record { ret = ret; error = ret; written = []; world = w' }
  process_entry w in_irq (unrecognized t) = record {
    ret = 0;
    error = neg einval;
    written = [];
    world = w;
  }

  -- The loop from entry number i on. It ends at the first error.
  unfoldable pub process_entries : Bool → ℕ → List IoEntry → Progress Hw → Progress Hw
  process_entries in_irq i [] p = p
  process_entries in_irq i (e ∷ es) p =
      let d = process_entry p.world in_irq e in
      let failed : Progress Hw = record {
        ret = d.ret;
        error_code = d.error;
        completion_index = p.completion_index;
        results = p.results ++ d.written;
        world = d.world;
      } in
      let rest =
        process_entries in_irq (i + 1) es
          (record failed { error_code = p.error_code; completion_index = i }) in
      if nonzero d.error then failed else rest

  abbrev pub initial_progress : World Hw → Transaction → Progress Hw
  initial_progress w t = record {
    ret = 0;
    error_code = t.resp.error_code;
    completion_index = neg 1;
    results = [];
    world = record w { hw = barrier bus.register_io_barrier false true w.hw };
  }

  -- The entries of a transaction, between the two barriers.
  unfoldable pub run_entries : World Hw → Transaction → Bool → Progress Hw
  unfolding process_entries
  run_entries w t in_irq = process_entries in_irq 0 t.info.io_entries (initial_progress w t)

  abbrev pub final_response : Transaction → Progress Hw → ResponseHeader
  final_response t p = record (t.resp) {
    error_code = p.error_code;
    completion_index = p.completion_index;
  }

  -- Every caller passes a list of pending events. The code ignores that the push may fail.
  unfoldable pub process_transaction : Job Hw → Transaction → Bool → ℕ × Job Hw
  unfolding run_entries
  process_transaction job t in_irq =
      let info = t.info in
      let (process_timestamp, w1) = lwis_get_time k job.world in
      let p = run_entries w1 t in_irq in
      let (now, w2) = lwis_get_time k p.world in
      let w3 = record w2 { hw = barrier bus.register_io_barrier true false w2.hw } in
      let resp = final_response t p in
      let event_id =
        if nonzero p.error_code then info.emit_error_event_id else info.emit_success_event_id in
      let (_, pending, w4) =
        lwis_pending_event_push k w3 job.pending event_id (response resp p.results)
          (add64 sizeof_response_header t.resp.results_size_bytes) in
      (
        p.ret,
        record {
          world = w4;
          pending = pending;
          debug_info =
              save_transaction_to_history job.debug_info info process_timestamp
                (sub64 now process_timestamp);
        },
      )

module _ (k : Kernel) {Hw : Type 0} where
  -- Callers that pass NULL for the pending events only free the transaction.
  unfoldable pub cancel_transaction : Job Hw → Transaction → ℕ → Job Hw
  cancel_transaction job t error_code =
      let resp : ResponseHeader = record {
        id = t.info.id;
        error_code = error_code;
        completion_index = neg 1;
        num_entries = 0;
        results_size_bytes = 0;
      } in
      let (_, pending, w) =
        lwis_pending_event_push k job.world job.pending t.info.emit_error_event_id
          (response resp []) sizeof_response_header in
      record job { world = w; pending = pending }

module _ (k : Kernel) {Hw : Type 0} (bus : Bus Hw) where
  -- The loop of process_transactions_in_queue, which takes every transaction off the queue.
  -- Transactions that other threads add while the lock is released are not modelled.
  unfoldable pub process_queue : Job Hw → List Transaction → Bool → Job Hw
  process_queue job [] in_irq = job
  process_queue job (t ∷ ts) in_irq =
      process_queue
        (if nonzero t.resp.error_code
          then cancel_transaction k job t t.resp.error_code
          else (process_transaction k bus job t in_irq).1)
        ts in_irq
