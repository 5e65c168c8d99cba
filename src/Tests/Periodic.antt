-- ===== src/Tests/Periodic.antt =====
-- A periodic I/O with batches of two periods, submitted to a client that has none.
use google_lwis.Prelude.{ℕ, true, false, [], ◌∷◌}
use google_lwis.Io.{read_batch}
use google_lwis.Event.{PeriodicResponseHeader}
use google_lwis.Periodic.{PeriodicIoInfo, PeriodicIo, ClientPeriodic}
use google_lwis.Periodic.Timer.{lwis_periodic_io_init, lwis_periodic_io_submit}
use google_lwis.Tests.{kernel, first_four, write_nine, read_two}
use google_lwis.Tests.Transactions.{site}

abbrev two_periods : PeriodicIoInfo
two_periods = record {
  batch_size = 2;
  period_ns = 1000000;
  io_entries = read_two ∷ write_nine ∷ read_batch first_four ∷ [];
  emit_success_event_id = 4097;
  emit_error_event_id = 4098;
  id = 0;
}

abbrev response_of : ℕ → PeriodicResponseHeader
response_of size = record {
  id = 0;
  error_code = 0;
  batch_size = 0;
  num_entries_per_period = 2;
  results_size_bytes = size;
}

-- Each period has a result of 33 and one of 36 bytes.
abbrev prepared : PeriodicIo
prepared = record {
  info = two_periods;
  resp = response_of 138;
  allocated = 170;
  batches = [];
  batch_count = 0;
  active = true;
  contains_multiple_writes = false;
}

abbrev unprepared : PeriodicIo
unprepared = record prepared { resp = response_of 0; allocated = 0; active = false }

abbrev client : ClientPeriodic
client = (lwis_periodic_io_submit kernel site lwis_periodic_io_init 1 unprepared).1
