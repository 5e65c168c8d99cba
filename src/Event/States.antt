-- ===== src/Event/States.antt =====
-- lwis_event.c: the tables of event states of a client and of a device. A hash table is the list of
-- its entries, newest first; ERR_PTR(-ENOMEM) is `none`.
pub mod Table
use google_lwis.Prelude.{
  ℕ, Bool, true, false, Option, none, some, List, [], ◌∷◌, ◌==◌, if◌then◌else◌,
}
use google_lwis.Kernel.{Kernel, World, kmalloc}
use Table.{find}

-- `struct lwis_event_control`, the state of a client's event.
pub record EventControl : Type 0 where
  pub event_id : ℕ
  pub flags : ℕ

-- `struct lwis_device_event_state`
pub record DeviceEventState : Type 0 where
  pub event_id : ℕ
  pub enable_counter : ℕ
  pub event_counter : ℕ
  pub has_subscriber : Bool

abbrev pub client_key : EventControl → ℕ
client_key s = s.event_id

abbrev pub device_key : DeviceEventState → ℕ
device_key s = s.event_id

abbrev pub lwis_client_event_state_find : List EventControl → ℕ → Option EventControl
lwis_client_event_state_find = find client_key

abbrev pub lwis_device_event_state_find : List DeviceEventState → ℕ → Option DeviceEventState
lwis_device_event_state_find = find device_key

abbrev pub new_client_state : ℕ → EventControl
new_client_state event_id = record { event_id = event_id; flags = 0 }

abbrev pub new_device_state : ℕ → DeviceEventState
new_device_state event_id = record {
  event_id = event_id;
  enable_counter = 0;
  event_counter = 0;
  has_subscriber = false;
}

module _ {S : Type 0} (key : S → ℕ) where
  -- The critical section: the table is searched again before the new state is added.
  abbrev pub add_unless_there : List S → ℕ → S → S × List S
  add_unless_there table event_id new_state = elim (find key table event_id) [
    | none ↦ (new_state, new_state ∷ table)
    | some s ↦ (s, table)
  ]

  module _ (k : Kernel) {Hw : Type 0} where
    -- The body of the two find_or_create functions. They differ in the new state only.
    abbrev pub find_or_create : S → World Hw → List S → ℕ → Option S × List S × World Hw
    find_or_create new_state w table event_id = elim (find key table event_id) [
      | some s ↦ (some s, table, w)
      | none ↦
          (let (done, w') = kmalloc k w in
            let (s, table') = add_unless_there table event_id new_state in
            if done then (some s, table', w') else (none, table, w'))
    ]

module _ (k : Kernel) {Hw : Type 0} where
  unfoldable pub lwis_client_event_state_find_or_create :
      World Hw → List EventControl → ℕ → Option EventControl × List EventControl × World Hw
  lwis_client_event_state_find_or_create w table event_id =
      find_or_create client_key k (new_client_state event_id) w table event_id

  unfoldable pub lwis_device_event_state_find_or_create :
      World Hw
      → List DeviceEventState
      → ℕ
      → Option DeviceEventState × List DeviceEventState × World Hw
  lwis_device_event_state_find_or_create w table event_id =
      find_or_create device_key k (new_device_state event_id) w table event_id
