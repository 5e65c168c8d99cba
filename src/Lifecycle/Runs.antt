-- ===== src/Lifecycle/Runs.antt =====
-- Clients that open, enable, disable and close a device, and what its lifecycle needs of other parts.
use google_lwis.Prelude.{
  ℕ, ◌+◌, ◌≡◌, sym, subst, Bool, true, Option, none, some, List, [], ◌∷◌, arith, if◌then◌else◌,
}
use google_lwis.Event.States.Table.{find, modify, key-find}
use google_lwis.Lifecycle.{
  OpenClient, LifeDevice, LifeApi, client_key, is_negative, del_client, lwis_open,
  ioctl_device_enable, quiesce, ioctl_device_disable, run_close, lwis_release,
}

-- How many clients have enabled the device.
abbrev pub count_enabled : List OpenClient → ℕ
count_enabled [] = 0
count_enabled (c ∷ cs) = (if c.is_enabled then 1 else 0) + count_enabled cs

pub count-modify :
    (cs : List OpenClient) (id : ℕ) (c : OpenClient) (on : Bool)
    → find client_key cs id ≡ some c
    → count_enabled (modify client_key cs id (λ x. record x { is_enabled = on }))
        + (if c.is_enabled then 1 else 0)
      ≡ count_enabled cs + (if on then 1 else 0)
unfolding find modify
count-modify [] id c on e = cc
count-modify (x ∷ cs) id c on e = ground (arith, count-modify cs id c on)

pub count-del :
    (cs : List OpenClient) (id : ℕ) (c : OpenClient)
    → find client_key cs id ≡ some c
    → count_enabled (del_client cs id) + (if c.is_enabled then 1 else 0) ≡ count_enabled cs
unfolding find del_client
count-del [] id c e = cc
count-del (x ∷ cs) id c e = ground (arith, count-del cs id c)

pub own_id :
    {Hw : Type 0} (d : LifeDevice Hw) (id : ℕ) (c : OpenClient)
    → find client_key d.clients id ≡ some c
    → find client_key d.clients c.id ≡ some c
own_id d id c found =
    subst (λ k. find client_key d.clients k ≡ some c)
      (sym (key-find client_key d.clients id c found)) found

-- What the lifecycle needs of the other parts. `Off` holds of hardware that is powered down, `On` of
-- hardware that may be powered down: powering up leads from the one to the other, and back if it
-- fails; powering down leads back, whatever it returns; all else keeps both.
pub record IsSwitching {Hw : Type 0} (api : LifeApi Hw) (Off On : Hw → Type 0) : Type 0 where
  pub off_on : (hw : Hw) → Off hw → On hw
  pub up : (hw : Hw) → Off hw → On (api.power_up hw).1
  pub up_failed :
      (hw : Hw) → Off hw → is_negative (api.power_up hw).0 ≡ true → Off (api.power_up hw).1
  pub down : (hw : Hw) → On hw → Off (api.power_down hw).1
  pub cleanup_off : (hw : Hw) (id : ℕ) → Off hw → Off (api.cleanup_client hw id)
  pub cleanup_on : (hw : Hw) (id : ℕ) → On hw → On (api.cleanup_client hw id)
  pub queue_off : (hw : Hw) (id : ℕ) → Off hw → Off (api.event_queue_clear hw id)
  pub quiesce_off : (hw : Hw) (id : ℕ) → Off hw → Off (quiesce api hw id)
  pub quiesce_on : (hw : Hw) (id : ℕ) → On hw → On (quiesce api hw id)
  pub bts_off : (hw : Hw) → Off hw → Off (api.platform_update_bts hw)
  pub qos_off : (hw : Hw) → Off hw → Off (api.platform_remove_qos hw)
  pub states_off : (hw : Hw) → Off hw → Off (api.device_event_states_clear hw)
  pub close_off : (hw : Hw) → Off hw → Off (run_close api.close hw)

pub data Action : Type 0 where
  enables disables closes : Action

pub data Life : Type 0 where
  opened : Bool → Bool → Life
  by_client : Action → ℕ → Life

-- What a client that is open does; other clients do nothing.
unfoldable pub act_found :
    {Hw : Type 0} → LifeApi Hw → Action → LifeDevice Hw → Option OpenClient → LifeDevice Hw
act_found api action d none = d
act_found api enables d (some c) = (ioctl_device_enable api d c).1
act_found api disables d (some c) = (ioctl_device_disable api d c).1
act_found api closes d (some c) = (lwis_release api d c).1

-- What clients do to a device, one after another.
unfoldable pub run_lives : {Hw : Type 0} → LifeApi Hw → LifeDevice Hw → List Life → LifeDevice Hw
run_lives api d [] = d
run_lives api d (opened present allocated ∷ ls) = run_lives api (lwis_open present allocated d).1 ls
run_lives api d (by_client action id ∷ ls) =
    run_lives api (act_found api action d (find client_key d.clients id)) ls
