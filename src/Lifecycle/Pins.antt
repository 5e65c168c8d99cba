-- ===== src/Lifecycle/Pins.antt =====
-- The pins of a device through its lifecycle: powering in the default order switches as the lifecycle
-- needs it.
use google_lwis.Prelude.{ℕ, ◌≡◌, arith}
use google_lwis.Power.{PowerApi, Machine}
use google_lwis.Power.Locked.{lwis_dev_power_up_locked, lwis_dev_power_down_locked}
use google_lwis.Power.Balance.{IsTracking, Owns, Released}
use google_lwis.Power.Balance.Cycle.{power_up-Owns, power_down-Ensures, power_cycle-Released}
use google_lwis.Lifecycle.{LifeApi, quiesce, run_close}
use google_lwis.Lifecycle.Runs.{IsSwitching}

-- The lifecycle with the power functions, and any functions for the rest.
abbrev pub with_power : {Hw : Type 0} → PowerApi Hw → LifeApi (Machine Hw) → LifeApi (Machine Hw)
with_power api rest = record rest {
  power_up = lwis_dev_power_up_locked api;
  power_down = lwis_dev_power_down_locked api;
}

module _ {Hw : Type 0} (out : Hw → ℕ) where
  -- A function that leaves the device's record and the number of lists given out alone.
  abbrev pub Leaves : (Machine Hw → Machine Hw) → Type 0
  Leaves f = (s : Machine Hw) → ((f s).own ≡ s.own) × (out (f s).hw ≡ out s.hw)

  pub record IsLeaving (rest : LifeApi (Machine Hw)) : Type 0 where
    pub cleanup : (id : ℕ) → Leaves (λ s. rest.cleanup_client s id)
    pub queue : (id : ℕ) → Leaves (λ s. rest.event_queue_clear s id)
    pub quiesced : (id : ℕ) → Leaves (λ s. quiesce rest s id)
    pub bts : Leaves rest.platform_update_bts
    pub qos : Leaves rest.platform_remove_qos
    pub states : Leaves rest.device_event_states_clear
    pub closed : Leaves (run_close rest.close)

  module _ (base : ℕ) (f : Machine Hw → Machine Hw) (leaves : Leaves f) (s : Machine Hw) where
    leaves-Owns : Owns out base s → Owns out base (f s)
    leaves-Owns v = let same = leaves s in ground arith

    leaves-Released : Released out base s → Released out base (f s)
    leaves-Released p =
        let same = leaves s in (((leaves-Owns p.0.0.0, ground arith), ground arith), ground arith)

  -- Where the rest of the driver leaves pins alone.
  pub power-IsSwitching :
      (api : PowerApi Hw) (rest : LifeApi (Machine Hw)) (base : ℕ)
      → IsTracking api out
      → IsLeaving rest
      → IsSwitching (with_power api rest) (Released out base) (Owns out base)
  power-IsSwitching api rest base t l = record {
    off_on = λ s p. p.0.0.0;
    up = power_up-Owns api out t base;
    up_failed =
        λ s p failed. (power_cycle-Released api out t base s p).0 (λ z. absurd (ground arith));
    down = power_down-Ensures api out t base;
    cleanup_off = λ s id. leaves-Released base (λ u. rest.cleanup_client u id) (l.cleanup id) s;
    cleanup_on = λ s id. leaves-Owns base (λ u. rest.cleanup_client u id) (l.cleanup id) s;
    queue_off = λ s id. leaves-Released base (λ u. rest.event_queue_clear u id) (l.queue id) s;
    quiesce_off = λ s id. leaves-Released base (λ u. quiesce rest u id) (l.quiesced id) s;
    quiesce_on = λ s id. leaves-Owns base (λ u. quiesce rest u id) (l.quiesced id) s;
    bts_off = leaves-Released base rest.platform_update_bts l.bts;
    qos_off = leaves-Released base rest.platform_remove_qos l.qos;
    states_off = leaves-Released base rest.device_event_states_clear l.states;
    close_off = leaves-Released base (run_close rest.close) l.closed;
  }
