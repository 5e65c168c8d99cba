-- ===== src/Periodic/Timer.antt =====
-- lwis_periodic_io.c: the timers of a client, submitting, cancelling and flushing periodic I/O, and the
-- work item that runs it.
pub mod Laws
use google_lwis.Prelude.{
  ℕ, ◌+◌, ◌*◌, ◌%◌, ◌^◌, Bool, true, false, not, ◌&&◌, ◌||◌, Option, none, some, List, [], ◌∷◌,
  ◌++◌, neg, nonzero, ◌==◌, if◌then◌else◌, map, sext32,
}
use google_lwis.Kernel.{Kernel, World, kmalloc, einval, enoent, enomem, ecanceled}
use google_lwis.Io.{Bus, IoEntry}
use google_lwis.Event.{
  EventInfo, PeriodicResponseHeader, sizeof_periodic_response_header, sizeof_periodic_result,
  periodic_response,
}
use google_lwis.Event.Queue.{lwis_pending_event_push}
use google_lwis.Event.States.Table.{find, modify}
use google_lwis.Transaction.Response.{read_sizes}
use google_lwis.Transaction.Submit.{Site, create_sw_events}
use google_lwis.Periodic.{
  PeriodicIoInfo, PeriodicIo, PeriodicIoList, ClientPeriodic, period_key, io_key, multiple_writes,
}
use google_lwis.Periodic.Process.{Stop, process_io_entries}

abbrev pub lwis_periodic_io_init : ClientPeriodic
lwis_periodic_io_init = record {
  timer_list = [];
  periodic_io_process_queue = [];
  periodic_io_counter = 0;
  work_queued = false;
}

-- The sizes are `size_t`s; the batch size is converted to one.
unfoldable pub new_periodic_response : ℕ → ℕ → PeriodicIoInfo → PeriodicResponseHeader
unfolding read_sizes
new_periodic_response id width info =
    let (read_buf_size, read_entries) = read_sizes width info.io_entries 0 0 in
    let batches = sext32 info.batch_size in
    record {
      id = id;
      error_code = 0;
      batch_size = 0;
      num_entries_per_period = read_entries;
      results_size_bytes =
          (read_entries * sizeof_periodic_result * batches + read_buf_size * batches) % 2 ^ 64;
    }

-- `resp_size`, the size that is given to kmalloc.
unfoldable pub periodic_response_size : ℕ → PeriodicIoInfo → ℕ
unfolding read_sizes
periodic_response_size width info =
    let (read_buf_size, read_entries) = read_sizes width info.io_entries 0 0 in
    let batches = sext32 info.batch_size in
    (sizeof_periodic_response_header
      + read_entries * sizeof_periodic_result * batches
      + read_buf_size * batches)
    % 2 ^ 64

-- The periodic I/Os of a list that are active, each with a new proxy, as long as it can be allocated;
-- those without one are skipped.
module _ (k : Kernel) {Hw : Type 0} where
  unfoldable pub proxies : World Hw → List PeriodicIo → List ℕ × World Hw
  proxies w [] = ([], w)
  proxies w (p ∷ ps) =
      let (done, w1) = kmalloc k w in
      let (rest, w2) = proxies w1 ps in
      let (rest_idle, w2_idle) = proxies w ps in
      if p.active then ((if done then io_key p ∷ rest else rest), w2) else (rest_idle, w2_idle)

  -- The timer of a list. It goes on only if a proxy was queued, which the result says
  -- (HRTIMER_RESTART).
  unfoldable pub periodic_io_timer_func :
      World Hw → ClientPeriodic → PeriodicIoList → Bool × ClientPeriodic × World Hw
  unfolding proxies
  periodic_io_timer_func w c l =
      let (queued, w') = proxies w l.list in
      let c' = record c {
        periodic_io_process_queue = c.periodic_io_process_queue ++ queued;
        work_queued = true;
      } in
      let idle = record c {
        timer_list =
            modify period_key c.timer_list l.period_ns (λ x. record x { hr_timer_active = false });
      } in
      elim queued [ [] ↦ (false, idle, w') | _ ∷ _ ↦ (true, c', w') ]

  -- `none` is NULL.
  unfoldable pub periodic_io_list_create_locked :
      World Hw → List PeriodicIoList → ℕ → Option (List PeriodicIoList) × World Hw
  periodic_io_list_create_locked w table period_ns =
      let (done, w') = kmalloc k w in
      let l : PeriodicIoList = record {
        period_ns = period_ns;
        hr_timer_active = true;
        list = [];
      } in
      ((if done then some (l ∷ table) else none), w')

  -- The table has a list with an active timer for the period afterwards.
  unfoldable pub periodic_io_list_find_or_create_locked :
      World Hw → List PeriodicIoList → ℕ → Option (List PeriodicIoList) × World Hw
  unfolding periodic_io_list_create_locked
  periodic_io_list_find_or_create_locked w table period_ns =
      elim (find period_key table period_ns) [
        | none ↦ periodic_io_list_create_locked w table period_ns
        | some l ↦
            (some (modify period_key table period_ns (λ x. record x { hr_timer_active = true })), w)
      ]

  -- The id is the counter, which queue_periodic_io_locked moves on.
  unfoldable pub prepare_response : World Hw → ℕ → ℕ → PeriodicIo → ℕ × PeriodicIo × World Hw
  unfolding new_periodic_response periodic_response_size
  prepare_response w counter width p =
      let (done, w') = kmalloc k w in
      let named = record p { info = record (p.info) { id = counter } } in
      if done
      then (
        0,
        record named {
          resp = new_periodic_response counter width p.info;
          allocated = periodic_response_size width p.info;
          batches = [];
          batch_count = 0;
        },
        w',
      )
      else (neg enomem, named, w')

  unfoldable pub queue_periodic_io_locked :
      World Hw → ClientPeriodic → PeriodicIo → ℕ × ClientPeriodic × World Hw
  unfolding periodic_io_list_find_or_create_locked
  queue_periodic_io_locked w c p =
      let (table, w') = periodic_io_list_find_or_create_locked w c.timer_list p.info.period_ns in
      elim table [
        | none ↦ (neg einval, c, w')
        | some lists ↦ (
          0,
          record c {
            timer_list =
                modify period_key lists p.info.period_ns
                  (λ x. record x { list = x.list ++ p ∷ [] });
            periodic_io_counter = c.periodic_io_counter + 1;
          },
          w',
        )
      ]

  -- The client's event states are in the site, whose transactions are not touched.
  unfoldable pub lwis_periodic_io_submit :
      Site Hw → ClientPeriodic → ℕ → PeriodicIo → ℕ × ClientPeriodic × Site Hw
  unfolding prepare_response queue_periodic_io_locked
  lwis_periodic_io_submit s c width p =
      let several = multiple_writes p.info.io_entries false in
      let (created, s1) =
        create_sw_events k s p.info.emit_success_event_id p.info.emit_error_event_id in
      let (ret, p1, w2) =
        prepare_response s1.world c.periodic_io_counter width
          (record p { contains_multiple_writes = several }) in
      let (code, c3, w3) = queue_periodic_io_locked w2 c (record p1 { active = true }) in
      if not created
      then (neg einval, c, s1)
      else if nonzero ret
      then (ret, c, record s1 { world = w2 })
      else (code, c3, record s1 { world = w3 })

-- A write to the periodic I/O with an id: the first one in the order of the table.
unfoldable pub find_io : List PeriodicIoList → ℕ → Option PeriodicIo
find_io [] id = none
find_io (l ∷ ls) id = elim (find io_key l.list id) [ some p ↦ some p | none ↦ find_io ls id ]

unfoldable pub modify_io : List PeriodicIoList → ℕ → (PeriodicIo → PeriodicIo) → List PeriodicIoList
modify_io [] id f = []
modify_io (l ∷ ls) id f = elim (find io_key l.list id) [
  | some p ↦ record l { list = modify io_key l.list id f } ∷ ls
  | none ↦ l ∷ modify_io ls id f
]

abbrev pub mark_periodic_io_resp_error : PeriodicIo → PeriodicIo
mark_periodic_io_resp_error p = record p {
  resp = record (p.resp) { error_code = neg ecanceled };
  active = false;
}

-- Waiting for entries that are being run is left out.
unfoldable pub lwis_periodic_io_cancel : ClientPeriodic → ℕ → ℕ × ClientPeriodic
lwis_periodic_io_cancel c id = elim (find_io c.timer_list id) [
  | none ↦ (neg enoent, c)
  | some p ↦ (0, record c { timer_list = modify_io c.timer_list id mark_periodic_io_resp_error })
]

module _ (k : Kernel) {Hw : Type 0} (bus : Bus Hw) where
  unfoldable pub push_periodic_io_error_event :
      World Hw → List EventInfo → PeriodicIo → ℕ → List EventInfo × World Hw
  push_periodic_io_error_event w pending p error_code =
      let resp : PeriodicResponseHeader = record {
        id = p.info.id;
        error_code = error_code;
        batch_size = 0;
        num_entries_per_period = 0;
        results_size_bytes = 0;
      } in
      let (_, pending', w') =
        lwis_pending_event_push k w pending p.info.emit_error_event_id (periodic_response resp [])
          sizeof_periodic_response_header in
      (pending', w')

  -- What the work item does with the periodic I/O of one proxy.
  unfoldable pub run_proxy :
      Stop → World Hw → List EventInfo → PeriodicIo → PeriodicIo × List EventInfo × World Hw
  unfolding push_periodic_io_error_event
  run_proxy stop w pending p =
      let error_code = if nonzero p.resp.error_code then p.resp.error_code else neg ecanceled in
      let (refused, w_refused) = push_periodic_io_error_event w pending p error_code in
      let (_, p', pending', w') = process_io_entries k bus stop w pending p in
      if nonzero p.resp.error_code || not p.active
      then (p, refused, w_refused)
      else (p', pending', w')

  -- The process queue, with what other threads do while each of its proxies runs. Proxies that the
  -- timers add meanwhile are not modelled.
  unfoldable pub run_proxies :
      (ℕ → Stop)
      → World Hw
      → List EventInfo
      → List PeriodicIoList
      → List ℕ
      → List PeriodicIoList × List EventInfo × World Hw
  unfolding run_proxy
  run_proxies stop w pending lists [] = (lists, pending, w)
  run_proxies stop w pending lists (id ∷ ids) = elim (find_io lists id) [
    | none ↦ run_proxies stop w pending lists ids
    | some p ↦
        (let (p', pending', w') = run_proxy (stop id) w pending p in
          run_proxies stop w' pending' (modify_io lists id (λ _. p')) ids)
  ]

  -- The pending events are then passed to lwis_pending_events_emit.
  unfoldable pub periodic_io_work_func :
      (ℕ → Stop) → World Hw → ClientPeriodic → ClientPeriodic × List EventInfo × World Hw
  unfolding run_proxies
  periodic_io_work_func stop w c =
      let (lists, pending, w') = run_proxies stop w [] c.timer_list c.periodic_io_process_queue in
      (
        record c { timer_list = lists; periodic_io_process_queue = []; work_queued = false },
        pending,
        w',
      )

-- Deactivating everything and stopping all timers.
abbrev pub deactivated : PeriodicIo → PeriodicIo
deactivated p = record p { active = false }

abbrev pub cancel_timer : PeriodicIoList → PeriodicIoList
cancel_timer l = record l { hr_timer_active = false; list = map deactivated l.list }

-- Emptying a list.
abbrev pub release_list : PeriodicIoList → PeriodicIoList
release_list l = record l { list = [] }

module _ (k : Kernel) {Hw : Type 0} (bus : Bus Hw) where
  -- The work queue is drained between the two loops over the timers.
  unfoldable pub lwis_periodic_io_client_flush :
      (ℕ → Stop) → World Hw → ClientPeriodic → ClientPeriodic × List EventInfo × World Hw
  unfolding periodic_io_work_func
  lwis_periodic_io_client_flush stop w c =
      let (c', pending, w') =
        periodic_io_work_func k bus stop w
          (record c { timer_list = map cancel_timer c.timer_list }) in
      (record c' { timer_list = map release_list c'.timer_list }, pending, w')

  abbrev pub lwis_periodic_io_client_cleanup :
      (ℕ → Stop) → World Hw → ClientPeriodic → ClientPeriodic × List EventInfo × World Hw
  lwis_periodic_io_client_cleanup stop w c =
      let (c', pending, w') = lwis_periodic_io_client_flush stop w c in
      (record c' { timer_list = [] }, pending, w')
