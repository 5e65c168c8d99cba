-- ===== src/Periodic/Timer/Laws.antt =====
-- The periodic I/O of a client under submitting and cancelling, and the size of its responses.
pub mod Reach
use google_lwis.Prelude.{
  ℕ, zero, suc, ◌+◌, ◌*◌, ◌%◌, ◌^◌, ◌<◌, ◌≤◌, ◌≡◌, ◌≢◌, refl, ◌⊎◌, inl, inr, Bool, true, false, not,
  ◌||◌, Option, none, some, List, [], ◌∷◌, ◌++◌, arith, neg, nonzero, sext32, ap, ◌∙◌, subst, sym,
  if-cases, if◌then◌else◌, All, All-append, All-map, map, add64, Option-cases, Bool-cases,
}
use native.Mathlib.Nat.{add-mul, mul_comm, mul-le-mul_right}
use google_lwis.Kernel.{Kernel, World}
use google_lwis.Io.{
  IoEntry, read, read_batch, write, write_batch, poll, read_assert, unrecognized, Bus, IsBus,
  reg_value_bytewidth,
}
use google_lwis.Event.{
  EventInfo, PeriodicResponseHeader, sizeof_periodic_result, sizeof_periodic_response_header,
}
use google_lwis.Event.States.Table.{find, modify, All-find, All-modify}
use google_lwis.Transaction.Response.{read_sizes}
use google_lwis.Transaction.Submit.{Site, create_sw_events}
use google_lwis.Periodic.{
  PeriodicIoInfo, PeriodicIo, PeriodicIoList, ClientPeriodic, period_key, io_key, multiple_writes,
}
use google_lwis.Periodic.Process.{Stop, process_io_entries}
use google_lwis.Periodic.Process.Laws.{period_space, IsPrepared}
use google_lwis.Periodic.Timer.{
  new_periodic_response, periodic_response_size, prepare_response, queue_periodic_io_locked,
  periodic_io_list_find_or_create_locked, periodic_io_list_create_locked, lwis_periodic_io_submit,
  periodic_io_timer_func, find_io, modify_io, mark_periodic_io_resp_error, lwis_periodic_io_cancel,
  run_proxy, run_proxies, periodic_io_work_func, deactivated, cancel_timer, release_list,
  lwis_periodic_io_client_flush,
}

-- The bytes and the reads that are counted, where their sum does not wrap.
read_sizes-space :
    (width : ℕ) (es : List IoEntry) (size count : ℕ)
    → size + period_space width es < 2 ^ 64
    → let (size', count') = read_sizes width es size count in
      count' * sizeof_periodic_result + size'
      ≡ count * sizeof_periodic_result + size + period_space width es
unfolding read_sizes
read_sizes-space width [] size count fits = omega arith
read_sizes-space width (read r ∷ es) size count fits =
    omega (arith, read_sizes-space width es (add64 size width) (count + 1) (omega arith))
read_sizes-space width (read_batch b ∷ es) size count fits =
    omega (arith, read_sizes-space width es (add64 size b.size_in_bytes) (count + 1) (omega arith))
read_sizes-space width (e ∷ es) size count fits =
    omega (arith, read_sizes-space width es size count (omega arith))

-- A periodic I/O as user space may submit it: a positive batch size, and sizes that do not wrap, nor
-- with the header of the response.
pub record IsFitting (width : ℕ) (info : PeriodicIoInfo) : Type 0 where
  pub positive : 0 < info.batch_size
  pub sized : info.batch_size < 2 ^ 31
  pub fits :
      sizeof_periodic_response_header + info.batch_size * period_space width info.io_entries
      < 2 ^ 64

new_periodic_response-room :
    (id width : ℕ) (info : PeriodicIoInfo)
    → IsFitting width info
    → (new_periodic_response id width info).results_size_bytes
      ≡ info.batch_size * period_space width info.io_entries
unfolding new_periodic_response
new_periodic_response-room id width info h =
    let (size, count) = read_sizes width info.io_entries 0 0 in
    let space = period_space width info.io_entries in
    let enough : space ≤ info.batch_size * space =
      omega (arith, mul-le-mul_right {m = 1} {n = info.batch_size} space h.positive) in
    let same : sext32 info.batch_size ≡ info.batch_size = ground (arith, h.sized) in
    let counted : count * sizeof_periodic_result + size ≡ space =
      omega (arith, read_sizes-space width info.io_entries 0 0 (omega (arith, enough, h.fits))) in
    let product : count * sizeof_periodic_result * info.batch_size + size * info.batch_size
        ≡ info.batch_size * space =
      sym (add-mul (count * sizeof_periodic_result) size info.batch_size)
      ∙ ap (λ n. n * info.batch_size) counted
      ∙ mul_comm space info.batch_size in
    rw same (omega (arith, product, h.fits))

periodic_response_size-room :
    (width : ℕ) (info : PeriodicIoInfo)
    → IsFitting width info
    → periodic_response_size width info
      ≡ sizeof_periodic_response_header + info.batch_size * period_space width info.io_entries
unfolding periodic_response_size new_periodic_response
periodic_response_size-room width info h =
    omega (arith, new_periodic_response-room 0 width info h, h.fits)

-- Set up for its next period, or inactive with an error code; the buffer of its response is that for
-- its batches.
abbrev pub IsSound : ℕ → PeriodicIo → Type 0
IsSound width p =
    (IsPrepared width p ⊎ ((p.active ≡ false) × (p.resp.error_code ≢ 0)))
    × (p.allocated
        ≡ sizeof_periodic_response_header
          + p.info.batch_size * period_space width p.info.io_entries)

abbrev pub AllSound : ℕ → List PeriodicIoList → Type 0
AllSound width = All (λ l. All (IsSound width) l.list)

module _ (width : ℕ) where
  pub find_io-IsSound :
      (lists : List PeriodicIoList) (id : ℕ) (p : PeriodicIo)
      → AllSound width lists
      → find_io lists id ≡ some p
      → IsSound width p
  unfolding find_io
  find_io-IsSound [] id p h e = ground arith
  find_io-IsSound (l ∷ ls) id p h e = elim (Option-cases (find io_key l.list id)) [
    | inl missing ↦ find_io-IsSound ls id p h.1 (ground arith)
    | inr (q, there) ↦ All-find io_key (IsSound width) l.list id p h.0 (ground arith)
  ]

  pub modify_io-AllSound :
      (lists : List PeriodicIoList) (id : ℕ) (f : PeriodicIo → PeriodicIo)
      → ((p : PeriodicIo) → IsSound width p → IsSound width (f p))
      → AllSound width lists
      → AllSound width (modify_io lists id f)
  unfolding modify_io
  modify_io-AllSound [] id f keep h = tt
  modify_io-AllSound (l ∷ ls) id f keep h = elim (Option-cases (find io_key l.list id)) [
    | inl missing ↦ rw (modify_io, missing) (h.0, modify_io-AllSound ls id f keep h.1)
    | inr (q, there) ↦
        rw (modify_io, there) (All-modify io_key (IsSound width) l.list id f keep h.0, h.1)
  ]

  pub cancel-AllSound :
      (c : ClientPeriodic) (id : ℕ)
      → AllSound width c.timer_list
      → AllSound width (lwis_periodic_io_cancel c id).1.timer_list
  unfolding lwis_periodic_io_cancel
  cancel-AllSound c id h = elim (Option-cases (find_io c.timer_list id)) [
    | inl missing ↦ rw (lwis_periodic_io_cancel, missing) h
    | inr (p, there) ↦
        rw (lwis_periodic_io_cancel, there)
          (modify_io-AllSound c.timer_list id mark_periodic_io_resp_error
            (λ q s. (inr (refl, λ e. omega (arith, e)), s.1)) h)
  ]

  fresh_batch :
      (id : ℕ) (info : PeriodicIoInfo) → (new_periodic_response id width info).batch_size ≡ 0
  unfolding new_periodic_response
  fresh_batch id info = refl

  fresh_error :
      (id : ℕ) (info : PeriodicIoInfo) → (new_periodic_response id width info).error_code ≡ 0
  unfolding new_periodic_response
  fresh_error id info = refl

  pub prepare_response-IsSound :
      (k : Kernel) {Hw : Type 0} (w : World Hw) (counter : ℕ) (p : PeriodicIo)
      → IsFitting width p.info
      → let (ret, p', w') = prepare_response k w counter width p in
        ret ≡ 0 → IsSound width (record p' { active = true })
  unfolding prepare_response
  prepare_response-IsSound k w counter p fitting done = elim (Bool-cases (k.alloc w.calls)) [
    | inl granted ↦
        let ready : IsPrepared width (record p {
          info = record (p.info) { id = counter };
          resp = new_periodic_response counter width p.info;
          allocated = periodic_response_size width p.info;
          batches = [];
          batch_count = 0;
          active = true;
        }) =
          record {
            sized = fitting.sized;
            counting = fitting.positive;
            room = new_periodic_response-room counter width (p.info) fitting;
            held = refl;
            told = fresh_batch counter p.info;
            clean = fresh_error counter p.info;
            within = tt;
          } in
        rw (prepare_response, granted)
          (inl ready, periodic_response_size-room width (p.info) fitting)
    | inr refused ↦ absurd (ground arith)
  ]

  lists-AllSound :
      (k : Kernel) {Hw : Type 0} (w : World Hw) (table lists : List PeriodicIoList) (period_ns : ℕ)
      → AllSound width table
      → (periodic_io_list_find_or_create_locked k w table period_ns).0 ≡ some lists
      → AllSound width lists
  unfolding periodic_io_list_find_or_create_locked periodic_io_list_create_locked
  lists-AllSound k w table lists period_ns h e =
      elim (Option-cases (find period_key table period_ns)) [
        | inl missing ↦ (elim (Bool-cases (k.alloc w.calls)) [
          | inl granted ↦
              let created : PeriodicIoList = record {
                period_ns = period_ns;
                hr_timer_active = true;
                list = [];
              } in
              let made : created ∷ table ≡ lists = ground arith in
              subst (AllSound width) made (tt, h)
          | inr refused ↦ absurd (ground arith)
        ])
        | inr (l, there) ↦
            let armed = λ (x : PeriodicIoList). record x { hr_timer_active = true } in
            let kept : modify period_key table period_ns armed ≡ lists = ground arith in
            subst (AllSound width) kept (
              All-modify period_key (λ l. All (IsSound width) l.list) table period_ns armed
                (λ x sx. sx) h)
      ]

  pub queue-AllSound :
      (k : Kernel) {Hw : Type 0} (w : World Hw) (c : ClientPeriodic) (p : PeriodicIo)
      → IsSound width p
      → AllSound width c.timer_list
      → AllSound width (queue_periodic_io_locked k w c p).1.timer_list
  unfolding queue_periodic_io_locked
  queue-AllSound k w c p sound h =
      elim (Option-cases
        (periodic_io_list_find_or_create_locked k w c.timer_list p.info.period_ns).0) [
          | inl failed ↦ rw (queue_periodic_io_locked, failed) h
          | inr (lists, found) ↦
              rw (queue_periodic_io_locked, found)
                (All-modify period_key (λ l. All (IsSound width) l.list) lists p.info.period_ns
                  (λ x. record x { list = x.list ++ p ∷ [] })
                  (λ x sx. All-append (IsSound width) x.list (p ∷ []) sx (sound, tt))
                  (lists-AllSound k w c.timer_list lists p.info.period_ns h found))
        ]
