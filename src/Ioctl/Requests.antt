-- ===== src/Ioctl/Requests.antt =====
-- lwis_ioctl.c: submitting, replacing and cancelling transactions and periodic I/Os.
use google_lwis.Prelude.{
  ℕ, ◌-◌, ◌^◌, Bool, Option, none, some, List, [], neg, nonzero, if◌then◌else◌,
}
use google_lwis.Kernel.{Kernel, efault}
use google_lwis.Transaction.{TransactionInfo, ClientTransactions}
use google_lwis.Transaction.Submit.{
  Site, lwis_transaction_submit_locked, lwis_transaction_replace_locked, lwis_transaction_cancel,
}
use google_lwis.Periodic.{PeriodicIo, ClientPeriodic}
use google_lwis.Periodic.Timer.{lwis_periodic_io_submit, lwis_periodic_io_cancel}
use google_lwis.Ioctl.Entries.{
  Pointer, UserEntry, construct_transaction, prepare_periodic_io, free_transaction,
}

-- LWIS_ID_INVALID: -1 as an `int64_t`.
abbrev pub id_invalid : ℕ
id_invalid = 2 ^ 64 - 1

-- The result, the information for the user, where it can be copied out, the buffers that are freed, and
-- the state.
abbrev pub Submitted : Type 0 → Type 0
Submitted S = ℕ × Option TransactionInfo × List Pointer × S

-- The end of a submission or a replacement, for the entries that were copied in.
unfoldable pub return_info :
    {S : Type 0} → Bool → List UserEntry → ℕ × TransactionInfo × S → Submitted S
unfolding free_transaction
return_info returned entries (ret, info, s) =
    let invalid = record info { id = id_invalid } in
    if nonzero ret
    then (ret, (if returned then some invalid else none), free_transaction entries, s)
    else if returned
    then (0, some info, [], s)
    else (neg efault, none, [], s)

module _ (k : Kernel) {Hw : Type 0} (copies : ℕ → Bool) (width : ℕ) where
  -- The entries are given twice: `entries` is where their buffers are, `info` holds what they say.
  unfoldable pub ioctl_transaction_submit :
      Bool → Bool → Bool → Site Hw → List UserEntry → TransactionInfo → Submitted (Site Hw)
  unfolding construct_transaction lwis_transaction_submit_locked return_info
  ioctl_transaction_submit info_copied entries_copied returned s entries info =
      let (ret, loaded, freed, w1) =
        construct_transaction k copies info_copied entries_copied s.world entries in
      let s1 = record s { world = w1 } in
      if nonzero ret
      then (ret, none, freed, s1)
      else return_info returned loaded (lwis_transaction_submit_locked k width s1 info)

  unfoldable pub ioctl_transaction_replace :
      Bool → Bool → Bool → Site Hw → List UserEntry → TransactionInfo → Submitted (Site Hw)
  unfolding construct_transaction lwis_transaction_replace_locked return_info
  ioctl_transaction_replace info_copied entries_copied returned s entries info =
      let (ret, loaded, freed, w1) =
        construct_transaction k copies info_copied entries_copied s.world entries in
      let s1 = record s { world = w1 } in
      if nonzero ret
      then (ret, none, freed, s1)
      else return_info returned loaded (lwis_transaction_replace_locked k width s1 info)

  -- The information for the user is left out. A periodic I/O that is refused is freed with the buffers
  -- of its entries.
  unfoldable pub ioctl_periodic_io_submit :
      Bool
      → Bool
      → Bool
      → Site Hw
      → ClientPeriodic
      → List UserEntry
      → PeriodicIo
      → ℕ × List Pointer × ClientPeriodic × Site Hw
  unfolding prepare_periodic_io lwis_periodic_io_submit free_transaction
  ioctl_periodic_io_submit info_copied entries_copied returned s c entries p =
      let (ret, loaded, freed, w1) =
        prepare_periodic_io k copies info_copied entries_copied s.world entries in
      let s1 = record s { world = w1 } in
      let (refused, c', s') = lwis_periodic_io_submit k s1 c width p in
      if nonzero ret
      then (ret, freed, c, s1)
      else if nonzero refused
      then (refused, free_transaction loaded, c', s')
      else if returned
      then (0, [], c', s')
      else (neg efault, [], c', s')

unfoldable pub ioctl_transaction_cancel : Bool → ClientTransactions → ℕ → ℕ × ClientTransactions
ioctl_transaction_cancel copied c id =
    if copied then lwis_transaction_cancel c id else (neg efault, c)

unfoldable pub ioctl_periodic_io_cancel : Bool → ClientPeriodic → ℕ → ℕ × ClientPeriodic
unfolding lwis_periodic_io_cancel
ioctl_periodic_io_cancel copied c id =
    if copied then lwis_periodic_io_cancel c id else (neg efault, c)
