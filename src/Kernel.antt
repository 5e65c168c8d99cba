-- ===== src/Kernel.antt =====
-- What the driver asks of the kernel: error numbers, allocations, time and sleeping.
-- The kernel is not part of the repository, so its answers are parameters: call number n of
-- `kmalloc` or of `lwis_get_time` (lwis_util.h) is answered by a function of n, and a `World` counts
-- the calls. `usleep_range` is documented to sleep at least its lower bound.
use google_lwis.Prelude.{ℕ, ◌+◌, ◌/◌, ◌≤◌, Bool}

abbrev pub enoent : ℕ
enoent = 2

abbrev pub eagain : ℕ
eagain = 11

abbrev pub enomem : ℕ
enomem = 12

abbrev pub efault : ℕ
efault = 14

abbrev pub enodev : ℕ
enodev = 19

abbrev pub einval : ℕ
einval = 22

abbrev pub enosys : ℕ
enosys = 38

abbrev pub ebusy : ℕ
ebusy = 16

abbrev pub ebadf : ℕ
ebadf = 9

abbrev pub ebadfd : ℕ
ebadfd = 77

abbrev pub eproto : ℕ
eproto = 71

abbrev pub eoverflow : ℕ
eoverflow = 75

abbrev pub etimedout : ℕ
etimedout = 110

abbrev pub ecanceled : ℕ
ecanceled = 125

abbrev pub eperm : ℕ
eperm = 1

-- `alloc n` says whether allocation n succeeds, `clock n` is the time in nanoseconds at call n
-- without the time slept.
pub record Kernel : Type 0 where
  pub alloc : ℕ → Bool
  pub clock : ℕ → ℕ

-- Time does not run backwards.
abbrev pub IsMonotone : Kernel → Type 0
IsMonotone k = (m n : ℕ) → m ≤ n → k.clock m ≤ k.clock n

-- The registers of the device, the calls made so far, and the nanoseconds slept.
pub record World (Hw : Type 0) : Type 0 where
  pub hw : Hw
  pub calls : ℕ
  pub slept : ℕ

module _ (k : Kernel) {Hw : Type 0} where
  abbrev pub kmalloc : World Hw → Bool × World Hw
  kmalloc w = (k.alloc w.calls, record w { calls = w.calls + 1 })

  abbrev pub lwis_get_time : World Hw → ℕ × World Hw
  lwis_get_time w = (k.clock w.calls + w.slept, record w { calls = w.calls + 1 })

-- `usleep_range(us, us)`.
abbrev pub usleep : {Hw : Type 0} → ℕ → World Hw → World Hw
usleep us w = record w { slept = w.slept + us }

abbrev pub ktime_to_ms : ℕ → ℕ
ktime_to_ms t = t / 1000000
