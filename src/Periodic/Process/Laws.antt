-- ===== src/Periodic/Process/Laws.antt =====
-- process_io_entries: the room that the results of a period have in the response buffer.
use google_lwis.Prelude.{ℕ, ◌+◌, ◌*◌, ◌^◌, ◌<◌, ◌≤◌, ◌≡◌, List, [], ◌∷◌, length, All}
use google_lwis.Kernel.{Kernel}
use google_lwis.Io.{IoEntry, read, read_batch, Bus, IsBus, reg_value_bytewidth}
use google_lwis.Event.{PeriodicResult, sizeof_periodic_result}
use google_lwis.Periodic.{PeriodicIo}

-- The bytes of the results of a period in the buffer, and what its reads are given.
abbrev pub extent : List PeriodicResult → ℕ
extent [] = 0
extent (r ∷ rs) = sizeof_periodic_result + length r.io_result.values + extent rs

abbrev pub entry_space : ℕ → IoEntry → ℕ
entry_space width (read r) = sizeof_periodic_result + width
entry_space width (read_batch b) = sizeof_periodic_result + b.size_in_bytes
entry_space width e = 0

abbrev pub period_space : ℕ → List IoEntry → ℕ
period_space width [] = 0
period_space width (e ∷ es) = entry_space width e + period_space width es

-- A periodic I/O that is set up for its next period: what was allocated is what its batches need,
-- and fewer batches are complete than a response has.
pub record IsPrepared (width : ℕ) (p : PeriodicIo) : Type 0 where
  pub sized : p.info.batch_size < 2 ^ 31
  pub counting : p.batch_count < p.info.batch_size
  pub room : p.resp.results_size_bytes ≡ p.info.batch_size * period_space width p.info.io_entries
  pub held : length p.batches ≡ p.batch_count
  pub told : p.resp.batch_size ≡ p.batch_count
  pub clean : p.resp.error_code ≡ 0
  pub within : All (λ rs. extent rs ≤ period_space width p.info.io_entries) p.batches

module _ (k : Kernel) {Hw : Type 0} (bus : Bus Hw) (law : IsBus bus) where
  abbrev width : ℕ
  width = reg_value_bytewidth bus
