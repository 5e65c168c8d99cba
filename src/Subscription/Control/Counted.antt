-- ===== src/Subscription/Control/Counted.antt =====
-- lwis_client_event_control_set: the enable counters of a device against the flags of its clients.
use google_lwis.Prelude.{
  ℕ, ◌+◌, ◌^◌, ◌<◌, ◌≤◌, ◌≡◌, ◌≢◌, refl, ◌⊎◌, inl, inr, Bool, true, false, none, some, List, [],
  ◌∷◌, ◌++◌, arith, length, ◌==◌, Bool-cases, Option-cases, neg, nonzero,
}
use google_lwis.Kernel.{Kernel, World, enomem}
use google_lwis.Io.{Vops}
use google_lwis.Event.{irq_enable}
use google_lwis.Event.States.{
  EventControl, client_key, new_client_state, lwis_device_event_state_find_or_create,
  lwis_client_event_state_find_or_create,
}
use google_lwis.Event.States.Table.{find}
use google_lwis.Device.{Device, lwis_device_event_flags_updated}
use google_lwis.Device.Flags.{counter_of, one_if}
use google_lwis.Device.Flags.Refcount.{Counted, counter_of-flags_updated}
use google_lwis.Subscription.Control.{Core, set_flags, change_flags, lwis_client_event_control_set}
use google_lwis.Subscription.Control.Keeps.{
  enables, enables-created, enables-set_flags, update_subscription-Keeps,
}

-- How many clients have set the enable flag of an event.
abbrev pub enabled_clients : List (List EventControl) → ℕ → ℕ
enabled_clients [] e = 0
enabled_clients (c ∷ cs) e = one_if (enables c e) + enabled_clients cs e

-- The enable counter of each event is the number of clients that have set its enable flag.
abbrev pub IsCounted : Device → List (List EventControl) → Type 0
IsCounted d clients = (e : ℕ) → counter_of d.event_states e ≡ enabled_clients clients e

enabled_clients-around :
    (before after : List (List EventControl)) (c : List EventControl) (e : ℕ)
    → enabled_clients (before ++ c ∷ after) e
      ≡ one_if (enables c e) + enabled_clients (before ++ after) e
enabled_clients-around [] after c e = refl
enabled_clients-around (b ∷ before) after c e =
    omega (arith, enabled_clients-around before after c e)

length-around :
    (before after : List (List EventControl)) (c : List EventControl)
    → length (before ++ c ∷ after) ≡ length before + 1 + length after
length-around [] after c = omega arith
length-around (b ∷ before) after c = omega (arith, length-around before after c)

one_if-le : (b : Bool) → one_if b ≤ 1
one_if-le true = omega arith
one_if-le false = omega arith

enabled_clients-le : (cs : List (List EventControl)) (e : ℕ) → enabled_clients cs e ≤ length cs
enabled_clients-le [] e = omega arith
enabled_clients-le (c ∷ cs) e = omega (arith, enabled_clients-le cs e, one_if-le (enables c e))

module _ (k : Kernel) (bucket : ℕ → ℕ) {Hw : Type 0} (v : Vops Hw) where
  -- The state of the client's event is found, or created with flags 0.
  client_state :
      (w : World Hw) (table : List EventControl) (id : ℕ)
      → let (state, table', w') = lwis_client_event_state_find_or_create k w table id in
        (state ≡ none)
        ⊎ ((s : EventControl) × (state ≡ some s) × (find client_key table' id ≡ some s))
  unfolding lwis_client_event_state_find_or_create find
  client_state w table id = elim (Option-cases (find client_key table id)) [
    | inl missing ↦ elim (Bool-cases (k.alloc w.calls)) [
      | inl done ↦ inr (new_client_state id, ground arith, ground arith)
      | inr failed ↦ inl (ground arith)
    ]
    | inr (s, there) ↦ inr (s, ground arith, ground arith)
  ]

  enables_found :
      (table : List EventControl) (id e : ℕ) (s : EventControl)
      → find client_key table id ≡ some s
      → (id == e) ≡ true
      → enables table e ≡ irq_enable s.flags
  enables_found table id e s found same = ground arith

  -- The update of the own device counts the client's new flags, where it finds or creates the state.
  flags_updated-IsCounted :
      (w : World Hw) (d : Device) (table : List EventControl) (s : EventControl) (id new_flags : ℕ)
      (before after : List (List EventControl))
      → find client_key table id ≡ some s
      → IsCounted d (before ++ table ∷ after)
      → length (before ++ table ∷ after) + 1 < 2 ^ 64
      → (lwis_device_event_state_find_or_create k w d.event_states id).0 ≢ none
      → IsCounted
          ((lwis_device_event_flags_updated k v w d id s.flags new_flags).1)
          (before ++ set_flags table id new_flags ∷ after)
  flags_updated-IsCounted w d table s id new_flags before after found counted small there e =
      let around = enabled_clients-around before after in
      let own : Counted d id s.flags = record {
        holds =
            λ on. ground (arith, counted id, around table id, enables_found table id id s found);
        room = omega (arith, counted id, enabled_clients-le (before ++ table ∷ after) id);
      } in
      let moved = counter_of-flags_updated k v w d id s.flags new_flags e own there in
      let set = enables-set_flags k bucket v table id new_flags e s found in
      elim (Bool-cases (id == e)) [
        | inl same ↦ ground (
          arith,
          counted e,
          moved,
          around table e,
          around (set_flags table id new_flags) e,
          set,
          enables_found table id e s found same,
        )
        | inr differs ↦
            ground (
              arith,
              counted e,
              moved,
              around table e,
              around (set_flags table id new_flags) e,
              set,
            )
      ]

  -- Without memory for the device's state the update fails.
  flags_updated_missing :
      (w : World Hw) (d : Device) (id old_flags new_flags : ℕ)
      → (lwis_device_event_state_find_or_create k w d.event_states id).0 ≡ none
      → (lwis_device_event_flags_updated k v w d id old_flags new_flags).0 ≡ neg enomem
  unfolding lwis_device_event_flags_updated
  flags_updated_missing w d id old_flags new_flags missing = ground arith

  change_flags-IsCounted :
      (c c' : Core Hw) (s : EventControl) (id new_flags ret : ℕ)
      (before after : List (List EventControl))
      → find client_key c.event_states id ≡ some s
      → IsCounted (c.devices.own) (before ++ c.event_states ∷ after)
      → length (before ++ c.event_states ∷ after) + 1 < 2 ^ 64
      → change_flags k bucket v c id s.flags new_flags ≡ some (ret, c')
      → ret ≢ neg enomem
      → IsCounted (c'.devices.own) (before ++ c'.event_states ∷ after)
  unfolding change_flags
  change_flags-IsCounted c c' s id new_flags ret before after found counted small done present e =
      let own = c.devices.own in
      let (code, own', w) = lwis_device_event_flags_updated k v c.world own id s.flags new_flags in
      let table = set_flags c.event_states id new_flags in
      let mid : Core Hw = record c {
        world = w;
        devices = record (c.devices) { own = own' };
        event_states = table;
      } in
      let around = enabled_clients-around before after in
      elim (Option-cases (lwis_device_event_state_find_or_create k c.world own.event_states id).0) [
        | inl missing ↦
            absurd (ground (arith, flags_updated_missing c.world own id s.flags new_flags missing))
        | inr (state, there) ↦
            let counted' =
              flags_updated-IsCounted c.world own c.event_states s id new_flags before after found
                counted small (λ missing. ground arith) e in
            (elim (Bool-cases (nonzero code)) [
              | inl failed ↦ ground (arith, counted')
              | inr updated ↦
                  let kept =
                    update_subscription-Keeps k bucket v mid c' id new_flags ret (ground arith) in
                  ground
                    (arith, counted', kept.0 e, kept.1 e, around table e, around c'.event_states e)
            ])
      ]

  -- Provided that lwis_client_event_control_set does not return -ENOMEM, and that the device has fewer
  -- than 2 ^ 64 - 1 clients, it keeps it true that the enable counter of every event of the device is
  -- the number of clients that have set the event's enable flag, whatever else it returns and
  -- whatever becomes of a subscription.
  pub control_set-IsCounted :
      (c c' : Core Hw) (control : EventControl) (ret : ℕ) (before after : List (List EventControl))
      → IsCounted (c.devices.own) (before ++ c.event_states ∷ after)
      → length (before ++ c.event_states ∷ after) + 1 < 2 ^ 64
      → lwis_client_event_control_set k bucket v c control ≡ some (ret, c')
      → ret ≢ neg enomem
      → IsCounted (c'.devices.own) (before ++ c'.event_states ∷ after)
  unfolding lwis_client_event_control_set
  control_set-IsCounted c c' control ret before after counted small done present e =
      let (state, table, w) =
        lwis_client_event_state_find_or_create k c.world c.event_states control.event_id in
      let mid : Core Hw = record c { world = w; event_states = table } in
      let around = enabled_clients-around before after in
      let counted' : IsCounted (c.devices.own) (before ++ table ∷ after) = λ x. ground (
        arith,
        counted x,
        around c.event_states x,
        around table x,
        enables-created k bucket v c.world c.event_states control.event_id x,
      ) in
      elim (client_state c.world c.event_states control.event_id) [
        | inl missing ↦ absurd (ground arith)
        | inr (s, found, listed) ↦ (elim (Bool-cases (s.flags == control.flags)) [
          | inl same ↦ ground (arith, counted' e)
          | inr differs ↦
              change_flags-IsCounted mid c' s control.event_id control.flags ret before after listed
                counted'
                (omega (
                  arith,
                  small,
                  length-around before after c.event_states,
                  length-around before after table,
                ))
                (ground arith) present e
        ])
      ]
