-- ===== src/Transaction/Cleanup.antt =====
-- lwis_transaction.c: the transactions that a client leaves for its end.
use google_lwis.Prelude.{
  ℕ, ◌+◌, ◌*◌, ◌^◌, ◌||◌, ◌==◌, false, Option, none, some, List, [], ◌∷◌, nonzero, if◌then◌else◌,
}
use google_lwis.Kernel.{Kernel, World}
use google_lwis.Io.{Bus}
use google_lwis.Event.{event_id_client_cleanup}
use google_lwis.Event.States.Table.{find}
use google_lwis.Transaction.{Transaction, EventList, ClientTransactions, Job, list_key}
use google_lwis.Transaction.Process.{process_transaction}

-- LWIS_EVENT_ID_CLIENT_CLEANUP of a device: its id is above the 32 bits of the code.
abbrev pub cleanup_event_of : ℕ → ℕ
cleanup_event_of dev_id = event_id_client_cleanup + dev_id * 2 ^ 32

-- `hash_del` of the list of an event.
unfoldable pub del_list : List EventList → ℕ → List EventList
del_list [] event_id = []
del_list (l ∷ ls) event_id = if l.event_id == event_id then ls else l ∷ del_list ls event_id

module _ (k : Kernel) {Hw : Type 0} (bus : Bus Hw) where
  -- The loop over the transactions. Those that are canceled, and all of a device that is not enabled, are
  -- only freed.
  unfoldable pub run_cleanup : ℕ → Job Hw → List Transaction → Job Hw
  unfolding process_transaction
  run_cleanup enabled job [] = job
  run_cleanup enabled job (t ∷ ts) =
      let skipped = run_cleanup enabled job ts in
      let done = run_cleanup enabled (process_transaction k bus job t false).1 ts in
      if nonzero t.resp.error_code || enabled == 0 then skipped else done

  -- The events that are left pending are written to the log and dropped.
  abbrev finish_cleanup :
      ℕ → World Hw → ClientTransactions → Option EventList → ClientTransactions × World Hw
  finish_cleanup enabled w c none = (c, w)
  finish_cleanup enabled w c (some l) =
      let start : Job Hw = record { world = w; pending = []; debug_info = c.debug_info } in
      let job = run_cleanup enabled start l.list in
      (
        record c {
          transaction_list = del_list c.transaction_list l.event_id;
          debug_info = job.debug_info;
        },
        job.world,
      )

  unfoldable pub lwis_transaction_client_cleanup :
      ℕ → ℕ → World Hw → ClientTransactions → ClientTransactions × World Hw
  unfolding run_cleanup del_list
  lwis_transaction_client_cleanup dev_id enabled w c =
      finish_cleanup enabled w c (find list_key c.transaction_list (cleanup_event_of dev_id))
