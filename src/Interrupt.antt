-- ===== src/Interrupt.antt =====
-- lwis_interrupt.c: the events of an interrupt line, and enabling them in its mask register.
-- The spinlock of a line is not modelled: a call is one step.
pub mod Events
pub mod Handler
use google_lwis.Prelude.{
  ℕ, ◌-◌, ◌^◌, Bool, not, Option, none, some, List, [], ◌∷◌, ◌++◌, neg, ◌==◌, bit_and, bit_or,
  if◌then◌else◌,
}
use google_lwis.Kernel.{einval}
use google_lwis.Io.{Vops}
use google_lwis.Io.Access.{lwis_device_single_register_read, lwis_device_single_register_write}
use google_lwis.Event.States.Table.{find}

-- `struct lwis_single_event_info`
pub record SingleEventInfo : Type 0 where
  pub event_id : ℕ
  pub int_reg_bit : ℕ
  pub is_critical : Bool

abbrev pub info_key : SingleEventInfo → ℕ
info_key e = e.event_id

-- `struct lwis_interrupt`: what events use of it.
pub record Interrupt : Type 0 where
  pub irq_reg_bid : ℕ
  pub irq_src_reg : ℕ
  pub irq_reset_reg : ℕ
  pub irq_mask_reg : ℕ
  pub irq_reg_access_size : ℕ
  pub mask_toggled : Bool
  pub event_infos : List SingleEventInfo
  pub enabled_event_infos : List SingleEventInfo

abbrev pub get_single_event_info : Interrupt → ℕ → Option SingleEventInfo
get_single_event_info irq event_id = find info_key irq.event_infos event_id

-- `list_del(&event->node_enabled)`
unfoldable pub remove : List SingleEventInfo → ℕ → List SingleEventInfo
remove [] event_id = []
remove (e ∷ es) event_id = if e.event_id == event_id then es else e ∷ remove es event_id

-- `mask | 1ULL << bit` and `mask & ~(1ULL << bit)`
abbrev pub masked : ℕ → ℕ → Bool → ℕ
masked mask bit is_set =
    if is_set then bit_or mask (2 ^ bit) else bit_and mask (2 ^ 64 - 1 - 2 ^ bit)

module _ {Hw : Type 0} (v : Vops Hw) where
  unfoldable pub set_mask : Hw → Interrupt → ℕ → Bool → ℕ × Hw
  set_mask hw irq int_reg_bit is_set =
      let (ret, value, hw1) =
        lwis_device_single_register_read (some v) hw irq.irq_reg_bid irq.irq_mask_reg
          irq.irq_reg_access_size in
      elim value [
        | none ↦ (ret, hw1)
        | some mask ↦
            lwis_device_single_register_write (some v) hw1 irq.irq_reg_bid irq.irq_mask_reg
              (masked mask int_reg_bit is_set) irq.irq_reg_access_size
      ]

  unfoldable pub single_event_enable : Hw → Interrupt → SingleEventInfo → Bool → ℕ × Interrupt × Hw
  single_event_enable hw irq event enabled =
      let infos =
        if enabled
        then irq.enabled_event_infos ++ event ∷ []
        else remove irq.enabled_event_infos event.event_id in
      let is_set = if irq.mask_toggled then not enabled else enabled in
      let (ret, hw') = set_mask hw irq event.int_reg_bit is_set in
      (ret, record irq { enabled_event_infos = infos }, hw')

  -- The loop over the lines, with the result so far.
  enable_from : ℕ → Hw → List Interrupt → ℕ → Bool → ℕ × List Interrupt × Hw
  unfolding single_event_enable
  enable_from ret hw [] event_id enabled = (ret, [], hw)
  enable_from ret hw (irq ∷ irqs) event_id enabled =
      let (ret1, irq1, hw1) =
        let x : ℕ × Interrupt × Hw = elim (get_single_event_info irq event_id) [
          | none ↦ (ret, irq, hw)
          | some event ↦ single_event_enable hw irq event enabled
        ] in
        x in
      let (ret2, irqs2, hw2) = enable_from ret1 hw1 irqs event_id enabled in
      (ret2, irq1 ∷ irqs2, hw2)

  unfoldable pub lwis_interrupt_event_enable :
      Hw → List Interrupt → ℕ → Bool → ℕ × List Interrupt × Hw
  unfolding enable_from
  lwis_interrupt_event_enable hw irqs event_id enabled =
      enable_from (neg einval) hw irqs event_id enabled
