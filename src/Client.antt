-- ===== src/Client.antt =====
-- lwis_device.h: a client of a device, and a device with its clients.
pub mod Emit
pub mod Pending
pub mod Work
use google_lwis.Prelude.{ℕ, Bool, false, none, some, List}
use google_lwis.Kernel.{World}
use google_lwis.Event.{queue_enable}
use google_lwis.Event.Queue.{Queue}
use google_lwis.Event.States.{EventControl, lwis_client_event_state_find}
use google_lwis.Device.{Device}
use google_lwis.Transaction.{ClientTransactions}

-- `struct lwis_client`: its events and its transactions.
pub record Client : Type 0 where
  pub event_states : List EventControl
  pub event_queue : Queue
  pub error_event_queue : Queue
  pub transactions : ClientTransactions

-- A device, the clients that have opened it, and the world.
pub record Host (Hw : Type 0) : Type 0 where
  pub world : World Hw
  pub device : Device
  pub clients : List Client

-- `emit`: whether a client has enabled the queueing of an event.
abbrev pub wants : Client → ℕ → Bool
wants c event_id = elim (lwis_client_event_state_find c.event_states event_id) [
  | none ↦ false
  | some s ↦ queue_enable s.flags
]
