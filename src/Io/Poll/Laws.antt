-- ===== src/Io/Poll/Laws.antt =====
-- lwis_entry_poll: its time limit, its rounds and its results.
use google_lwis.Prelude.{
  ℕ, zero, suc, ◌+◌, ◌*◌, ◌^◌, ◌<◌, ◌≤◌, ◌≡◌, refl, ◌⊎◌, inl, inr, Bool, true, arith, neg, sub64,
  ltb, ◌==◌, if◌then◌else◌, Bool-cases, false,
}
use google_lwis.Kernel.{Kernel, IsMonotone, World, lwis_get_time, usleep, ktime_to_ms, etimedout}
use google_lwis.Io.{Bus, ReadAssert}
use google_lwis.Io.Poll.{lwis_entry_read_assert, poll_loop, lwis_entry_poll}

module _ {Hw : Type 0} (k : Kernel) (bus : Bus Hw) where
  -- The time in milliseconds that `lwis_get_time` would return.
  abbrev pub ms_at : World Hw → ℕ
  ms_at w = ktime_to_ms (k.clock w.calls + w.slept)

  -- Times fit `ktime_t`, an `int64_t` of nanoseconds, even after sleeping for `ns` more.
  abbrev pub Fits : World Hw → ℕ → Type 0
  Fits w ns = (n : ℕ) → k.clock n + w.slept + ns < 2 ^ 63

  -- What a poll that started at `start` may return: 0 after a check that passed, as the last access,
  -- or -ETIMEDOUT when more than `timeout_ms` have passed.
  abbrev pub Outcome : ReadAssert → ℕ → ℕ → ℕ × World Hw → Type 0
  Outcome e start timeout_ms (ret, w') =
      ((ret ≡ 0) × (u : World Hw) × (lwis_entry_read_assert bus u e ≡ (0, w')))
      ⊎ ((ret ≡ neg etimedout) × (start + timeout_ms < ms_at w'))

  read_assert_keeps :
      (w : World Hw) (e : ReadAssert)
      → ((lwis_entry_read_assert bus w e).1.calls ≡ w.calls)
        × ((lwis_entry_read_assert bus w e).1.slept ≡ w.slept)
  unfolding lwis_entry_read_assert
  read_assert_keeps w e = (refl, refl)

  -- The elapsed time, computed on 64-bit words, does not wrap.
  late_iff :
      (start now timeout_ms : ℕ)
      → start ≤ now
      → now < 2 ^ 63
      → (ltb timeout_ms (sub64 now start) ≡ ltb (start + timeout_ms) now)
  late_iff start now timeout_ms le small = ground arith

  ms_lt : (w : World Hw) → Fits w 0 → ms_at w < 2 ^ 63
  ms_lt w fits = omega (arith, fits w.calls)

  module _ (mono : IsMonotone k) (e : ReadAssert) (start timeout_ms : ℕ) where
    -- The round's access, the time after it, and the world of the next round.
    abbrev checked : World Hw → World Hw
    checked w = (lwis_entry_read_assert bus w e).1

    abbrev timed : World Hw → World Hw
    timed w = (lwis_get_time k (checked w)).1

    abbrev slept : World Hw → World Hw
    slept w = usleep 1000000 (timed w)

    same_time : (w : World Hw) → ms_at (checked w) ≡ ms_at w
    same_time w = rw ((read_assert_keeps w e).0, (read_assert_keeps w e).1)

    timed-le : (w : World Hw) → ms_at w ≤ ms_at (timed w)
    timed-le w =
        let (calls, slept) = read_assert_keeps w e in
        omega (arith, mono w.calls (timed w).calls (omega arith))

    slept-lt : (w : World Hw) → ms_at w + 1 ≤ ms_at (slept w)
    slept-lt w =
        let (calls, slept) = read_assert_keeps w e in
        omega (arith, mono w.calls (timed w).calls (omega arith))

    slept-Fits : (w : World Hw) (f : ℕ) → Fits w (suc f * 1000000) → Fits (slept w) (f * 1000000)
    slept-Fits w f fits n = omega (arith, fits n, (read_assert_keeps w e).1)

    abbrev is_late : World Hw → Bool
    is_late w = ltb timeout_ms (sub64 (ktime_to_ms (lwis_get_time k (checked w)).0) start)

    -- One round, whatever follows it.
    round_Outcome :
        (w : World Hw) (rest : ℕ × World Hw)
        → (is_late w ≡ true → start + timeout_ms < ms_at (timed w))
        → (is_late w ≡ false → Outcome e start timeout_ms rest)
        → Outcome e start timeout_ms (
            if (lwis_entry_read_assert bus w e).0 == 0
            then (0, checked w)
            else if is_late w
            then (neg etimedout, timed w)
            else rest)
    round_Outcome w rest late early = elim (Bool-cases ((lwis_entry_read_assert bus w e).0 == 0)) [
      | inl passed ↦ rw passed (inl (refl, w, ground arith))
      | inr failed ↦ elim (Bool-cases (is_late w)) [
        | inl p ↦ rw (failed, p) (inr (refl, late p))
        | inr p ↦ rw (failed, p) (early p)
      ]
    ]

    late-lt :
        (w : World Hw)
        → Fits w 0
        → start ≤ ms_at w
        → is_late w ≡ true
        → start + timeout_ms < ms_at (timed w)
    late-lt w fits later late = ground (
      arith,
      late_iff start (ktime_to_ms (lwis_get_time k (checked w)).0) timeout_ms,
      timed-le w,
      ms_lt (checked w),
      mono (checked w).calls (timed w).calls,
      read_assert_keeps w e,
      fits (checked w).calls,
    )

    not_late :
        (w : World Hw)
        → Fits w 0
        → start ≤ ms_at w
        → is_late w ≡ false
        → ms_at w ≤ start + timeout_ms
    not_late w fits later early = ground (
      arith,
      late_iff start (ktime_to_ms (lwis_get_time k (checked w)).0) timeout_ms,
      read_assert_keeps w e,
      fits (checked w).calls,
    )

    poll_loop-Outcome :
        (f : ℕ) (w : World Hw)
        → Fits w (f * 1000000)
        → start ≤ ms_at w
        → start + timeout_ms + 1 < ms_at w + suc f
        → Outcome e start timeout_ms (poll_loop k bus (suc f) start timeout_ms w e)
    unfolding poll_loop
    poll_loop-Outcome zero w fits later room =
        round_Outcome w _ (late-lt w fits later)
          (λ early. absurd (omega (arith, not_late w fits later early)))
    poll_loop-Outcome (suc f) w fits later room =
        round_Outcome w _ (late-lt w (λ n. omega (arith, fits n)) later) (λ early.
          poll_loop-Outcome f (slept w) (slept-Fits w f fits) (omega (arith, slept-lt w))
            (omega (arith, slept-lt w)))

  abbrev pub limit : ReadAssert → Bool → ℕ
  limit e non_blocking = if non_blocking then 0 else e.timeout_ms

  -- A poll always returns, within as many rounds as its limit has milliseconds (0 where it must not
  -- block) and two more, as running out of rounds gives a result that is neither of these: 0 after an
  -- access that passed the check as its last one, or -ETIMEDOUT, and then more milliseconds than its
  -- limit have passed since it began. Time must not run backwards, and times must fit 63 bits.
  pub lwis_entry_poll-Outcome :
      (w : World Hw) (e : ReadAssert) (non_blocking : Bool)
      → IsMonotone k
      → Fits w ((limit e non_blocking + 1) * 1000000)
      → Outcome e (ms_at w) (limit e non_blocking) (lwis_entry_poll k bus w e non_blocking)
  unfolding lwis_entry_poll
  lwis_entry_poll-Outcome w e non_blocking mono fits =
      poll_loop-Outcome mono e (ms_at w) (limit e non_blocking) (limit e non_blocking + 1)
        (lwis_get_time k w).1 fits (omega (arith, mono w.calls (w.calls + 1) (omega arith)))
        (omega (arith, mono w.calls (w.calls + 1) (omega arith)))
