-- ===== src/Periodic/Timer/Laws/Reach.antt =====
-- What can happen to the periodic I/O of a client, in any order.
use google_lwis.Prelude.{ℕ}
use google_lwis.Kernel.{Kernel, World}
use google_lwis.Io.{Bus, IsBus, reg_value_bytewidth}
use google_lwis.Transaction.Submit.{Site}
use google_lwis.Periodic.{PeriodicIo, PeriodicIoList, ClientPeriodic}
use google_lwis.Periodic.Process.{Stop}
use google_lwis.Periodic.Timer.{
  lwis_periodic_io_submit, periodic_io_timer_func, lwis_periodic_io_cancel, periodic_io_work_func,
  lwis_periodic_io_client_flush,
}
use google_lwis.Periodic.Timer.Laws.{IsFitting}

module _ (k : Kernel) {Hw : Type 0} (bus : Bus Hw) (law : IsBus bus) where
  abbrev width : ℕ
  width = reg_value_bytewidth bus

  -- What can happen to the periodic I/O of a client.
  pub data Step : ClientPeriodic → ClientPeriodic → Type 0 where
    submitted :
        (s : Site Hw) (c : ClientPeriodic) (p : PeriodicIo)
        → IsFitting width p.info
        → Step c ((lwis_periodic_io_submit k s c width p).1)
    ticked :
        (w : World Hw) (c : ClientPeriodic) (l : PeriodicIoList)
        → Step c ((periodic_io_timer_func k w c l).1)
    worked :
        (stop : ℕ → Stop) (w : World Hw) (c : ClientPeriodic)
        → Step c ((periodic_io_work_func k bus stop w c).0)
    canceled : (c : ClientPeriodic) (id : ℕ) → Step c ((lwis_periodic_io_cancel c id).1)
    flushed :
        (stop : ℕ → Stop) (w : World Hw) (c : ClientPeriodic)
        → Step c ((lwis_periodic_io_client_flush k bus stop w c).0)

  pub data Reachable : ClientPeriodic → ClientPeriodic → Type 0 where
    here : (c : ClientPeriodic) → Reachable c c
    and_next : (a b c : ClientPeriodic) → Reachable a b → Step b c → Reachable a c
