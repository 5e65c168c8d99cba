-- ===== src/Supply/Pinctrl.antt =====
-- lwis_pinctrl.c: selecting a state of the pins of a device.
use google_lwis.Prelude.{ℕ, Option, none, some, neg}
use google_lwis.Kernel.{enodev}
use google_lwis.Supply.{Name, Got, handle, refused}

-- The functions of the kernel for pin control: a handle to it, and a state of its by name.
pub record PinctrlApi (Hw : Type 0) : Type 0 where
  pub devm_pinctrl_get : Hw → Got × Hw
  pub devm_pinctrl_put : Hw → ℕ → Hw
  pub pinctrl_lookup_state : Hw → ℕ → Name → Got × Hw
  pub pinctrl_select_state : Hw → ℕ → ℕ → ℕ × Hw

-- The error of the selection is returned, and 0 is its success.
unfoldable pub lwis_pinctrl_set_state :
    {Hw : Type 0} → PinctrlApi Hw → Hw → Option ℕ → Name → ℕ × Hw
lwis_pinctrl_set_state api hw none state_str = (neg enodev, hw)
lwis_pinctrl_set_state api hw (some pc) state_str =
    let (got, hw1) = api.pinctrl_lookup_state hw pc state_str in
    elim got [ refused err ↦ (err, hw1) | handle state ↦ api.pinctrl_select_state hw1 pc state ]
