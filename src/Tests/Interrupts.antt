-- ===== src/Tests/Interrupts.antt =====
-- A line that is given two events.
use google_lwis.Prelude.{ℕ, ◌≡◌, ◌⊎◌, true, false, [], ◌∷◌, neg}
use google_lwis.Kernel.{enomem, einval}
use google_lwis.Interrupt.{Interrupt}
use google_lwis.Interrupt.Events.{Registers, IrqEvent, lwis_interrupt_set_event_info}
use google_lwis.Interrupt.Events.Distinct.{IsDistinct, entries, set_event_info-IsDistinct}
use google_lwis.Tests.{kernel, world}

abbrev line : Interrupt
line = record {
  irq_reg_bid = 0;
  irq_src_reg = 0;
  irq_reset_reg = 0;
  irq_mask_reg = 0;
  irq_reg_access_size = 8;
  mask_toggled = false;
  event_infos = [];
  enabled_event_infos = [];
}

abbrev registers : Registers
registers = record {
  irq_reg_bid = 1;
  irq_src_reg = 2;
  irq_reset_reg = 3;
  irq_mask_reg = 4;
  mask_toggled = true;
  irq_reg_access_size = 8;
}

abbrev event_of : ℕ → ℕ → IrqEvent
event_of id bit = record { irq_event = id; int_reg_bit = bit }

set_event_info-IsDistinct_example :
    let (ret, irq', states', w') =
      lwis_interrupt_set_event_info kernel world [] line 3 registers
        (4097 ∷ [])
        (event_of 4096 0 ∷ event_of 4097 1 ∷ []) in
    IsDistinct irq'.event_infos
    × (irq'.enabled_event_infos ≡ [])
    × (((ret ≡ 0)
          × (irq'.event_infos ≡ entries 3 (4097 ∷ []) (event_of 4096 0 ∷ event_of 4097 1 ∷ []) []))
        ⊎ (ret ≡ neg enomem)
        ⊎ (ret ≡ neg einval))
set_event_info-IsDistinct_example =
    set_event_info-IsDistinct kernel world [] line 3 registers (4097 ∷ [])
      (event_of 4096 0 ∷ event_of 4097 1 ∷ [])
