-- ===== src/Periodic.antt =====
-- lwis_periodic_io.h: periodic I/O and its timers, and the state of them that a client keeps.
pub mod Process
pub mod Timer
use google_lwis.Prelude.{
  ℕ, Bool, true, false, not, ◌&&◌, ◌||◌, Option, none, some, List, [], ◌∷◌, ◌==◌, if◌then◌else◌,
}
use google_lwis.Io.{
  IoEntry, read, read_batch, write, write_batch, modify, poll, read_assert, unrecognized,
}
use google_lwis.Event.{PeriodicResponseHeader, PeriodicResult}

-- `struct lwis_periodic_io_info`. `batch_size` is an `int`.
pub record PeriodicIoInfo : Type 0 where
  pub batch_size : ℕ
  pub period_ns : ℕ
  pub io_entries : List IoEntry
  pub emit_success_event_id : ℕ
  pub emit_error_event_id : ℕ
  pub id : ℕ

-- `struct lwis_periodic_io`. `allocated` is the size of the buffer that `resp` points to, and `batches`
-- what it holds of the batches that count.
pub record PeriodicIo : Type 0 where
  pub info : PeriodicIoInfo
  pub resp : PeriodicResponseHeader
  pub allocated : ℕ
  pub batches : List (List PeriodicResult)
  pub batch_count : ℕ
  pub active : Bool
  pub contains_multiple_writes : Bool

-- `struct lwis_periodic_io_list`, and whether its timer is active.
pub record PeriodicIoList : Type 0 where
  pub period_ns : ℕ
  pub hr_timer_active : Bool
  pub list : List PeriodicIo

-- The periodic I/O of `struct lwis_client`. The process queue has the ids of the periodic I/Os that
-- its proxies stand for; `work_queued` says whether the work item is due.
pub record ClientPeriodic : Type 0 where
  pub timer_list : List PeriodicIoList
  pub periodic_io_process_queue : List ℕ
  pub periodic_io_counter : ℕ
  pub work_queued : Bool

abbrev pub period_key : PeriodicIoList → ℕ
period_key l = l.period_ns

abbrev pub io_key : PeriodicIo → ℕ
io_key p = p.info.id

abbrev pub is_write : IoEntry → Bool
is_write (write r) = true
is_write (write_batch b) = true
is_write (modify m) = true
is_write (read r) = false
is_write (read_batch b) = false
is_write (poll a) = false
is_write (read_assert a) = false
is_write (unrecognized t) = false

-- The loop that sets `contains_multiple_writes`.
abbrev pub multiple_writes : List IoEntry → Bool → Bool
multiple_writes [] has_one_write = false
multiple_writes (e ∷ es) has_one_write =
    if is_write e
    then has_one_write || multiple_writes es true
    else multiple_writes es has_one_write
