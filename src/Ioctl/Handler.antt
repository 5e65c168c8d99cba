-- ===== src/Ioctl/Handler.antt =====
-- lwis_ioctl.c: the dispatch of a client's requests, and which of them a device takes that is disabled.
use google_lwis.Prelude.{ℕ, ◌&&◌, Bool, true, false, not, neg, ◌==◌, if◌then◌else◌}
use google_lwis.Kernel.{einval, ebadfd}
use google_lwis.Subscription.Control.{device_type_top}

-- The types of requests.
pub data Request : Type 0 where
  get_device_info buffer_alloc buffer_free buffer_enroll buffer_disenroll reg_io : Request
  device_enable device_disable echo device_reset : Request
  event_control_get event_control_set event_dequeue time_query : Request
  transaction_submit transaction_cancel transaction_replace : Request
  periodic_io_submit periodic_io_cancel : Request
  dpm_clk_update dpm_qos_update dpm_get_clock : Request
  unknown : Request

-- Those that a device takes while it is disabled.
unfoldable pub is_taken_disabled : Request → Bool
is_taken_disabled get_device_info = true
is_taken_disabled buffer_alloc = false
is_taken_disabled buffer_free = true
is_taken_disabled buffer_enroll = true
is_taken_disabled buffer_disenroll = true
is_taken_disabled reg_io = false
is_taken_disabled device_enable = true
is_taken_disabled device_disable = false
is_taken_disabled echo = false
is_taken_disabled device_reset = true
is_taken_disabled event_control_get = true
is_taken_disabled event_control_set = false
is_taken_disabled event_dequeue = true
is_taken_disabled time_query = true
is_taken_disabled transaction_submit = false
is_taken_disabled transaction_cancel = false
is_taken_disabled transaction_replace = false
is_taken_disabled periodic_io_submit = false
is_taken_disabled periodic_io_cancel = false
is_taken_disabled dpm_clk_update = false
is_taken_disabled dpm_qos_update = true
is_taken_disabled dpm_get_clock = true
is_taken_disabled unknown = false

-- The function of each request, on a state of which all take a part.
pub record Handlers (S : Type 0) : Type 0 where
  pub ioctl_get_device_info : S → ℕ × S
  pub ioctl_buffer_alloc : S → ℕ × S
  pub ioctl_buffer_free : S → ℕ × S
  pub ioctl_buffer_enroll : S → ℕ × S
  pub ioctl_buffer_disenroll : S → ℕ × S
  pub ioctl_reg_io : S → ℕ × S
  pub ioctl_device_enable : S → ℕ × S
  pub ioctl_device_disable : S → ℕ × S
  pub ioctl_echo : S → ℕ × S
  pub ioctl_device_reset : S → ℕ × S
  pub ioctl_event_control_get : S → ℕ × S
  pub ioctl_event_control_set : S → ℕ × S
  pub ioctl_event_dequeue : S → ℕ × S
  pub ioctl_time_query : S → ℕ × S
  pub ioctl_transaction_submit : S → ℕ × S
  pub ioctl_transaction_cancel : S → ℕ × S
  pub ioctl_transaction_replace : S → ℕ × S
  pub ioctl_periodic_io_submit : S → ℕ × S
  pub ioctl_periodic_io_cancel : S → ℕ × S
  pub ioctl_dpm_clk_update : S → ℕ × S
  pub ioctl_dpm_qos_update : S → ℕ × S
  pub ioctl_dpm_get_clock : S → ℕ × S

module _ {S : Type 0} (h : Handlers S) where
  unfoldable pub dispatch : Request → S → ℕ × S
  dispatch get_device_info s = h.ioctl_get_device_info s
  dispatch buffer_alloc s = h.ioctl_buffer_alloc s
  dispatch buffer_free s = h.ioctl_buffer_free s
  dispatch buffer_enroll s = h.ioctl_buffer_enroll s
  dispatch buffer_disenroll s = h.ioctl_buffer_disenroll s
  dispatch reg_io s = h.ioctl_reg_io s
  dispatch device_enable s = h.ioctl_device_enable s
  dispatch device_disable s = h.ioctl_device_disable s
  dispatch echo s = h.ioctl_echo s
  dispatch device_reset s = h.ioctl_device_reset s
  dispatch event_control_get s = h.ioctl_event_control_get s
  dispatch event_control_set s = h.ioctl_event_control_set s
  dispatch event_dequeue s = h.ioctl_event_dequeue s
  dispatch time_query s = h.ioctl_time_query s
  dispatch transaction_submit s = h.ioctl_transaction_submit s
  dispatch transaction_cancel s = h.ioctl_transaction_cancel s
  dispatch transaction_replace s = h.ioctl_transaction_replace s
  dispatch periodic_io_submit s = h.ioctl_periodic_io_submit s
  dispatch periodic_io_cancel s = h.ioctl_periodic_io_cancel s
  dispatch dpm_clk_update s = h.ioctl_dpm_clk_update s
  dispatch dpm_qos_update s = h.ioctl_dpm_qos_update s
  dispatch dpm_get_clock s = h.ioctl_dpm_get_clock s
  dispatch unknown s = (neg einval, s)

  -- The type of the device and its counter of enabled clients are read before the call.
  unfoldable pub lwis_ioctl_handler : ℕ → ℕ → Request → S → ℕ × S
  unfolding dispatch is_taken_disabled
  lwis_ioctl_handler dev_type enabled request s =
      if not (dev_type == device_type_top) && enabled == 0 && not (is_taken_disabled request)
      then (neg ebadfd, s)
      else dispatch request s
