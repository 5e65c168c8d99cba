-- ===== src/Io/Poll.antt =====
-- lwis_transaction.c: lwis_entry_read_assert and lwis_entry_poll.
pub mod Laws
use google_lwis.Prelude.{
  ℕ, zero, suc, ◌+◌, ◌^◌, Bool, none, some, neg, sub64, bit_and, ltb, ◌==◌, if◌then◌else◌,
}
use google_lwis.Kernel.{Kernel, World, lwis_get_time, usleep, ktime_to_ms, einval, etimedout}
use google_lwis.Io.{Bus, vops, ReadAssert}
use google_lwis.Io.Access.{lwis_device_single_register_read}

module _ {Hw : Type 0} (bus : Bus Hw) where
  -- `(val & mask) == (expected & mask)`
  abbrev pub matches : ReadAssert → ℕ → Bool
  matches e val = bit_and val e.mask == bit_and e.val e.mask

  unfoldable pub lwis_entry_read_assert : World Hw → ReadAssert → ℕ × World Hw
  lwis_entry_read_assert w e =
      let (ret, value, hw) =
        lwis_device_single_register_read (some (vops bus)) w.hw e.bid e.offset
          bus.native_value_bitwidth in
      (
        elim value [ none ↦ ret | some val ↦ (if matches e val then 0 else neg einval) ],
        record w { hw = hw },
      )

-- What the loop returns without fuel: no `int` has 33 bits.
abbrev pub out_of_fuel : ℕ
out_of_fuel = 2 ^ 32

module _ {Hw : Type 0} (k : Kernel) (bus : Bus Hw) where
  -- The `while` loop on fuel. The loop never changes `val`, so its test `val != entry->val` is the
  -- constant truth, and the loop ends by `break` or by the time limit.
  unfoldable pub poll_loop : ℕ → ℕ → ℕ → World Hw → ReadAssert → ℕ × World Hw
  poll_loop zero start timeout_ms w e = (out_of_fuel, w)
  poll_loop (suc fuel) start timeout_ms w e =
      let (ret, w1) = lwis_entry_read_assert bus w e in
      let (now, w2) = lwis_get_time k w1 in
      let again = poll_loop fuel start timeout_ms (usleep 1000000 w2) e in
      if ret == 0
      then (0, w1)
      else if ltb timeout_ms (sub64 (ktime_to_ms now) start)
      then (neg etimedout, w2)
      else again

  -- A sleep lasts at least a millisecond, so `timeout_ms + 2` rounds are never exceeded.
  unfoldable pub lwis_entry_poll : World Hw → ReadAssert → Bool → ℕ × World Hw
  unfolding poll_loop
  lwis_entry_poll w e non_blocking =
      let timeout_ms : ℕ = if non_blocking then 0 else e.timeout_ms in
      let (now, w1) = lwis_get_time k w in
      poll_loop (suc (timeout_ms + 1)) (ktime_to_ms now) timeout_ms w1 e
