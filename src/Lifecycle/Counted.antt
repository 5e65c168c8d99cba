-- ===== src/Lifecycle/Counted.antt =====
-- The counter of enabled clients, and when the device is powered.
use google_lwis.Prelude.{
  ℕ, ◌≤◌, ◌≡◌, refl, true, false, not, ◌&&◌, Option, none, some, List, [], ◌∷◌, arith, ltb, ◌==◌,
  if◌then◌else◌, if-cases,
}
use google_lwis.Event.States.Table.{find}
use google_lwis.Lifecycle.{
  OpenClient, LifeDevice, LifeApi, client_key, is_negative, int_max, lwis_open, enable_first,
  ioctl_device_enable, quiesce, disable_last, ioctl_device_disable, lwis_release_client,
  release_power, finish_release, lwis_release,
}
use google_lwis.Lifecycle.Runs.{
  count_enabled, count-modify, count-del, own_id, IsSwitching, Action, enables, disables, closes,
  Life, opened, by_client, act_found, run_lives,
}

module _ {Hw : Type 0} (api : LifeApi Hw) (Off On : Hw → Type 0) (t : IsSwitching api Off On) where
  -- The counter is that of the clients that have enabled the device, and an `int`; without them the
  -- device is off.
  pub record IsCounted (d : LifeDevice Hw) : Type 0 where
    pub counted : d.enabled ≡ count_enabled d.clients
    pub small : d.enabled ≤ int_max
    pub on : On d.hw
    pub off : d.enabled ≡ 0 → Off d.hw

  module _ (d : LifeDevice Hw) (c : OpenClient) (id : ℕ) where
    enable_first-IsCounted :
        find client_key d.clients id ≡ some c
        → c.is_enabled ≡ false
        → d.enabled ≡ 0
        → IsCounted d
        → IsCounted (enable_first api d id).1
    unfolding enable_first
    enable_first-IsCounted found idle none_yet v =
        let hw0 = api.event_queue_clear d.hw id in
        let was_off : Off hw0 = t.queue_off d.hw id (v.off none_yet) in
        let counts = count-modify d.clients id c true found in
        let P = λ (x : ℕ × LifeDevice Hw). IsCounted x.1 in
        if-cases P (is_negative (api.power_up hw0).0)
          (λ e. record {
            counted = v.counted;
            small = ground arith;
            on = t.off_on (api.power_up hw0).1 (t.up_failed hw0 was_off e);
            off = λ z. t.up_failed hw0 was_off e;
          })
          (λ e. record {
            counted = ground (arith, counts, v.counted);
            small = ground arith;
            on = t.up hw0 was_off;
            off = λ z. absurd (omega (arith, z));
          })

    disable_last-IsCounted :
        find client_key d.clients id ≡ some c
        → c.is_enabled ≡ true
        → IsCounted d
        → IsCounted (disable_last api d id).1
    unfolding disable_last
    disable_last-IsCounted found busy v =
        let counts = count-modify d.clients id c false found in
        let now_off = t.down d.hw v.on in
        let P = λ (x : ℕ × LifeDevice Hw). IsCounted x.1 in
        if-cases P (is_negative (api.power_down d.hw).0)
          (λ e. record {
            counted = v.counted;
            small = ground arith;
            on = t.off_on (api.power_down d.hw).1 now_off;
            off = λ z. now_off;
          })
          (λ e. record {
            counted = ground (arith, counts, v.counted);
            small = ground arith;
            on = t.off_on _ (t.states_off (api.power_down d.hw).1 now_off);
            off = λ z. t.states_off (api.power_down d.hw).1 now_off;
          })

  module _ (d : LifeDevice Hw) (c : OpenClient) where
    enable-IsCounted :
        find client_key d.clients c.id ≡ some c
        → IsCounted d
        → IsCounted (ioctl_device_enable api d c).1
    unfolding ioctl_device_enable
    enable-IsCounted found v =
        let counts = count-modify d.clients c.id c true found in
        let P = λ (x : ℕ × LifeDevice Hw). IsCounted x.1 in
        if-cases P c.is_enabled (λ e. v)
          (λ idle.
            if-cases P (ltb 0 d.enabled && ltb d.enabled int_max)
              (λ e. record {
                counted = ground (arith, counts, v.counted);
                small = ground arith;
                on = v.on;
                off = λ z. absurd (omega (arith, z));
              })
              (λ e.
                if-cases P (d.enabled == int_max) (λ f. v)
                  (λ f. enable_first-IsCounted d c c.id found idle (ground (arith, v.small)) v)))

    disable-IsCounted :
        find client_key d.clients c.id ≡ some c
        → IsCounted d
        → IsCounted (ioctl_device_disable api d c).1
    unfolding ioctl_device_disable
    disable-IsCounted found v =
        let counts = count-modify d.clients c.id c false found in
        let hw1 = quiesce api d.hw c.id in
        let quiet : IsCounted (record d { hw = hw1 }) = record {
          counted = v.counted;
          small = ground arith;
          on = t.quiesce_on d.hw c.id v.on;
          off = λ z. t.quiesce_off d.hw c.id (v.off z);
        } in
        let P = λ (x : ℕ × LifeDevice Hw). IsCounted x.1 in
        if-cases P (not c.is_enabled) (λ e. v)
          (λ e.
            let busy : c.is_enabled ≡ true = ground arith in
            if-cases P (ltb 1 d.enabled)
              (λ e. record {
                counted = ground (arith, counts, v.counted, busy);
                small = ground arith;
                on = quiet.on;
                off = λ z. absurd (ground (arith, z));
              })
              (λ e.
                if-cases P (d.enabled == 0) (λ f. quiet)
                  (λ f. disable_last-IsCounted (record d { hw = hw1 }) c c.id found busy quiet)))

    release_power-IsCounted :
        find client_key d.clients c.id ≡ some c
        → IsCounted d
        → IsCounted (release_power api c.is_enabled (lwis_release_client api d c.id)).1
    unfolding release_power lwis_release_client
    release_power-IsCounted found v =
        let counts = count-del d.clients c.id c found in
        let hw1 = api.cleanup_client d.hw c.id in
        let was_on : On hw1 = t.cleanup_on d.hw c.id v.on in
        let now_off = t.down hw1 was_on in
        let P = λ (x : ℕ × LifeDevice Hw). IsCounted x.1 in
        if-cases P (c.is_enabled && ltb 0 d.enabled)
          (λ e.
            if-cases P (d.enabled == 1)
              (λ f. record {
                counted = ground (arith, counts, v.counted);
                small = omega arith;
                on = t.off_on (api.power_down hw1).1 now_off;
                off = λ z. now_off;
              })
              (λ f. record {
                counted = ground (arith, counts, v.counted);
                small = ground (arith, v.small);
                on = was_on;
                off = λ z. absurd (ground (arith, z));
              }))
          (λ e. record {
            counted = ground (arith, counts, v.counted);
            small = v.small;
            on = was_on;
            off = λ z. t.cleanup_off d.hw c.id (v.off z);
          })

  finish-IsCounted : (d : LifeDevice Hw) → IsCounted d → IsCounted (finish_release api d)
  unfolding finish_release
  finish-IsCounted d v =
      if-cases IsCounted (d.enabled == 0)
        (λ e.
          let hw1 = (if d.bts_supported then api.platform_update_bts d.hw else d.hw) in
          let was_off : Off d.hw = v.off (ground arith) in
          let bts : Off hw1 =
            if-cases Off d.bts_supported (λ h. t.bts_off d.hw was_off) (λ h. was_off) in
          let done = t.close_off _ (t.states_off _ (t.qos_off hw1 bts)) in
          record { counted = v.counted; small = v.small; on = t.off_on _ done; off = λ z. done })
        (λ e. v)

  act-IsCounted :
      (action : Action) (d : LifeDevice Hw) (id : ℕ) (o : Option OpenClient)
      → find client_key d.clients id ≡ o
      → IsCounted d
      → IsCounted (act_found api action d o)
  unfolding act_found lwis_release
  act-IsCounted action d id none found v = v
  act-IsCounted enables d id (some c) found v = enable-IsCounted d c (own_id d id c found) v
  act-IsCounted disables d id (some c) found v = disable-IsCounted d c (own_id d id c found) v
  act-IsCounted closes d id (some c) found v =
      finish-IsCounted _ (release_power-IsCounted d c (own_id d id c found) v)

  -- Clients open, enable, disable and close a device in any order and number, whichever of these calls
  -- fail. Assumed is that powering up and down switch between the states `Off` and `On` of the
  -- hardware, where a power-up that fails and every power-down lead to `Off`, and that nothing else
  -- leaves them. This stays true: the counter is the number of open clients that have enabled the
  -- device, it is at most INT_MAX, the hardware may be powered down, and it is off when the counter is 0.
  pub run_lives-IsCounted :
      (d : LifeDevice Hw) (ls : List Life) → IsCounted d → IsCounted (run_lives api d ls)
  unfolding run_lives lwis_open
  run_lives-IsCounted d [] v = v
  run_lives-IsCounted d (opened present allocated ∷ ls) v =
      run_lives-IsCounted (lwis_open present allocated d).1 ls (
        if-cases (λ (x : ℕ × LifeDevice Hw). IsCounted x.1) (not present) (λ e. v)
          (λ e.
            if-cases (λ (x : ℕ × LifeDevice Hw). IsCounted x.1) (not allocated) (λ f. v)
              (λ f. record {
                counted = omega (arith, v.counted);
                small = v.small;
                on = v.on;
                off = v.off;
              })))
  run_lives-IsCounted d (by_client action id ∷ ls) v =
      run_lives-IsCounted (act_found api action d (find client_key d.clients id)) ls
        (act-IsCounted action d id (find client_key d.clients id) refl v)
