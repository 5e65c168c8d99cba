-- ===== src/Event.antt =====
-- lwis_commands.h: event ids, flags, event information and what responses carry.
pub mod Queue
pub mod States
use google_lwis.Prelude.{
  ℕ, ◌+◌, ◌*◌, ◌/◌, ◌%◌, ◌^◌, Bool, ◌||◌, List, [], ◌∷◌, test_bit, neg64, length,
}

abbrev pub event_id_none : ℕ
event_id_none = 0

abbrev pub event_id_heartbeat : ℕ
event_id_heartbeat = 1

abbrev pub event_id_client_cleanup : ℕ
event_id_client_cleanup = 2

abbrev pub start_of_error_range : ℕ
start_of_error_range = 2048

abbrev pub event_queue_overflow : ℕ
event_queue_overflow = 2050

abbrev pub start_of_specialized_range : ℕ
start_of_specialized_range = 4096

-- LWIS_EVENT_COUNTER_ON_NEXT_OCCURRENCE and LWIS_EVENT_COUNTER_EVERY_TIME.
abbrev pub on_next_occurrence : ℕ
on_next_occurrence = neg64 1

abbrev pub every_time : ℕ
every_time = neg64 2

-- `event_id & 0xFFFF0000FFFFFFFF`: the id without bits 32 to 47, its device.
abbrev pub generic_event_id : ℕ → ℕ
generic_event_id e = e / 2 ^ 48 % 2 ^ 16 * 2 ^ 48 + e % 2 ^ 32

-- `(event_id >> LWIS_EVENT_ID_EVENT_CODE_LEN) & 0xFFFF`
abbrev pub get_trigger_device_id : ℕ → ℕ
get_trigger_device_id e = e / 2 ^ 32 % 2 ^ 16

-- LWIS_TRANSACTION_EVENT_FLAG and LWIS_TRANSACTION_FAILURE_EVENT_FLAG.
abbrev pub is_transaction_event : ℕ → Bool
is_transaction_event e = test_bit e 63

abbrev pub is_failure_event : ℕ → Bool
is_failure_event e = test_bit e 62

-- LWIS_EVENT_CONTROL_FLAG_IRQ_ENABLE and LWIS_EVENT_CONTROL_FLAG_QUEUE_ENABLE of the flags.
abbrev pub irq_enable : ℕ → Bool
irq_enable flags = test_bit flags 0

abbrev pub queue_enable : ℕ → Bool
queue_enable flags = test_bit flags 1

-- `struct lwis_io_result`: its header, and the bytes stored behind it.
pub record IoResult : Type 0 where
  pub bid : ℕ
  pub offset : ℕ
  pub num_value_bytes : ℕ
  pub values : List ℕ

-- sizeof(struct lwis_io_result), where pointers and `size_t` have 8 bytes.
abbrev pub sizeof_io_result : ℕ
sizeof_io_result = 24

-- `struct lwis_transaction_response_header`
pub record ResponseHeader : Type 0 where
  pub id : ℕ
  pub error_code : ℕ
  pub completion_index : ℕ
  pub num_entries : ℕ
  pub results_size_bytes : ℕ

abbrev pub sizeof_response_header : ℕ
sizeof_response_header = 32

-- `struct lwis_periodic_io_response_header`
pub record PeriodicResponseHeader : Type 0 where
  pub id : ℕ
  pub error_code : ℕ
  pub batch_size : ℕ
  pub num_entries_per_period : ℕ
  pub results_size_bytes : ℕ

-- `struct lwis_periodic_io_result`
pub record PeriodicResult : Type 0 where
  pub timestamp_ns : ℕ
  pub io_result : IoResult

abbrev pub sizeof_periodic_response_header : ℕ
sizeof_periodic_response_header = 32

abbrev pub sizeof_periodic_result : ℕ
sizeof_periodic_result = 32

-- What `payload_buffer` points to. A periodic response has its results batch by batch.
pub data Payload : Type 0 where
  null : Payload
  response : ResponseHeader → List IoResult → Payload
  periodic_response : PeriodicResponseHeader → List (List PeriodicResult) → Payload
  bytes : List ℕ → Payload

-- `struct lwis_event_info`, less its input `payload_buffer_size`.
pub record EventInfo : Type 0 where
  pub event_id : ℕ
  pub event_counter : ℕ
  pub timestamp_ns : ℕ
  pub payload_size : ℕ
  pub payload : Payload
