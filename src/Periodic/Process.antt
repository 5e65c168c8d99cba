-- ===== src/Periodic/Process.antt =====
-- lwis_periodic_io.c: running the entries of a periodic I/O once, and the work item.
pub mod Laws
use google_lwis.Prelude.{
  ℕ, ◌+◌, ◌-◌, ◌*◌, ◌/◌, ◌%◌, ◌^◌, Bool, true, false, not, ◌&&◌, ◌||◌, Option, none, some, List, [],
  ◌∷◌, ◌++◌, neg, nonzero, leb, ◌==◌, if◌then◌else◌, map, sext32, add64, sub64, length,
}
use google_lwis.Kernel.{Kernel, World, lwis_get_time, ecanceled}
use google_lwis.Io.{IoEntry, Bus, read, read_batch}
use google_lwis.Io.Access.{barrier}
use google_lwis.Event.{
  EventInfo, IoResult, PeriodicResponseHeader, PeriodicResult, sizeof_periodic_response_header,
  periodic_response,
}
use google_lwis.Event.Queue.{lwis_pending_event_push}
use google_lwis.Transaction.Process.{Done, process_entry}
use google_lwis.Periodic.{PeriodicIoInfo, PeriodicIo}

-- What another thread does to a periodic I/O while its entries run: nothing, or lwis_periodic_io_cancel
-- or lwis_periodic_io_client_flush before a round of the loop.
pub data Stop : Type 0 where
  never : Stop
  canceled : ℕ → Stop
  flushed : ℕ → Stop

-- Whether it has happened before round i, and whether it sets the error code.
abbrev pub stopped : Stop → ℕ → Bool
stopped never i = false
stopped (canceled n) i = leb n i
stopped (flushed n) i = leb n i

abbrev pub canceled_by : Stop → ℕ → Bool
canceled_by never i = false
canceled_by (canceled n) i = leb n i
canceled_by (flushed n) i = false

-- The state of the loop: `ret`, the error to be stored, 0 if there is none, and the results written in
-- this period.
pub record Rounds (Hw : Type 0) : Type 0 where
  pub ret : ℕ
  pub error : ℕ
  pub results : List PeriodicResult
  pub world : World Hw

abbrev pub stamp : ℕ → IoResult → PeriodicResult
stamp now r = record { timestamp_ns = now; io_result = r }

-- Where a period's results start, and the size of a response with a number of batches. A batch size of
-- 0 is not modelled: the code divides by it.
abbrev pub slot : PeriodicIo → ℕ
slot p = p.resp.results_size_bytes / sext32 p.info.batch_size

abbrev pub resp_size : PeriodicIo → ℕ → ℕ
resp_size p batch_count = (sizeof_periodic_response_header + batch_count * slot p) % 2 ^ 64

module _ (k : Kernel) {Hw : Type 0} (bus : Bus Hw) where
  -- One entry: as in a transaction outside interrupt context, with the time of each read.
  unfoldable pub period_entry : World Hw → IoEntry → Rounds Hw
  period_entry w e =
      let (now, w1) = lwis_get_time k w in
      let timed = process_entry k bus w1 false e in
      let untimed = process_entry k bus w false e in
      let d : Done Hw = elim e [ read r ↦ timed | read_batch b ↦ timed | _ ↦ untimed ] in
      record { ret = d.ret; error = d.error; results = map (stamp now) d.written; world = d.world }

  -- The loop from round i on.
  unfoldable pub rounds : Stop → Bool → ℕ → List IoEntry → Rounds Hw → Rounds Hw
  unfolding period_entry
  rounds stop multiple i [] r = r
  rounds stop multiple i (e ∷ es) r =
      let d = period_entry r.world e in
      let next : Rounds Hw = record d { results = r.results ++ d.results } in
      let rest = rounds stop multiple (i + 1) es next in
      if stopped stop i && (i == 0 || not multiple)
      then record r { error = neg ecanceled }
      else if nonzero d.error
      then next
      else rest

  -- The entries between the two barriers.
  unfoldable pub run_period : Stop → World Hw → PeriodicIo → Rounds Hw
  unfolding rounds
  run_period stop w p =
      let start : Rounds Hw = record {
        ret = 0;
        error = 0;
        results = [];
        world = record w { hw = barrier bus.register_io_barrier false true w.hw };
      } in
      let r = rounds stop p.contains_multiple_writes 0 p.info.io_entries start in
      record r {
        world = record (r.world) { hw = barrier bus.register_io_barrier true false r.world.hw };
      }

  -- `resp->error_code` after the loop.
  abbrev pub final_error : Stop → PeriodicIo → Rounds Hw → ℕ
  final_error stop p r =
      if nonzero r.error
      then r.error
      else if canceled_by stop (length p.info.io_entries)
      then neg ecanceled
      else p.resp.error_code

  -- A completed period counts as a batch.
  abbrev pub counted : Stop → PeriodicIo → Rounds Hw → PeriodicIo
  counted stop p r =
      let count = if nonzero r.error then p.batch_count else p.batch_count + 1 in
      record p {
        batch_count = count;
        batches = if nonzero r.error then p.batches else p.batches ++ r.results ∷ [];
        active = p.active && not (stopped stop (length p.info.io_entries));
        resp = record (p.resp) {
          error_code = final_error stop p r;
          batch_size = if nonzero r.error then p.resp.batch_size else count;
        };
      }

  -- A response is pushed after an error, with the batches completed so far, and after the last batch.
  unfoldable pub report :
      World Hw → List EventInfo → PeriodicIo → PeriodicIo × List EventInfo × World Hw
  report w pending p =
      let size = resp_size p p.batch_count in
      let failed = record p {
        resp = record (p.resp) { results_size_bytes = sub64 size sizeof_periodic_response_header };
        active = false;
      } in
      let (_, pending_error, w_error) =
        lwis_pending_event_push k w pending p.info.emit_error_event_id
          (periodic_response (failed.resp) p.batches) size in
      let (_, pending_success, w_success) =
        lwis_pending_event_push k w pending p.info.emit_success_event_id
          (periodic_response (p.resp) p.batches) size in
      let restarted = record p {
        batch_count = 0;
        batches = [];
        resp = record (p.resp) { batch_size = 0 };
      } in
      if nonzero p.resp.error_code
      then (failed, pending_error, w_error)
      else if p.batch_count == p.info.batch_size
      then (restarted, pending_success, w_success)
      else (p, pending, w)

  -- Its only caller passes the list node and the list of pending events.
  unfoldable pub process_io_entries :
      Stop → World Hw → List EventInfo → PeriodicIo → ℕ × PeriodicIo × List EventInfo × World Hw
  unfolding run_period report
  process_io_entries stop w pending p =
      let r = run_period stop w p in
      let (p', pending', w') = report r.world pending (counted stop p r) in
      (r.ret, p', pending', w')
