-- ===== src/Transaction/Process/Laws.antt =====
-- process_transaction: the order in which its entries are executed, and what the response says of
-- it.
use google_lwis.Prelude.{
  ℕ, zero, suc, ◌+◌, ◌≡◌, ◌≢◌, refl, ◌⊎◌, inl, inr, Bool, List, [], ◌∷◌, ◌++◌, arith, neg, nonzero,
  length, ap, ◌∙◌, Bool-cases,
}
use google_lwis.Kernel.{Kernel, World}
use google_lwis.Io.{IoEntry, Bus}
use google_lwis.Transaction.{Transaction}
use google_lwis.Transaction.Process.{
  Progress, process_entry, process_entries, initial_progress, run_entries,
}

-- `completion_index` after n entries that succeeded.
abbrev pub completed : ℕ → ℕ
completed zero = neg 1
completed (suc n) = n

recount : {x : ℕ} (m n : ℕ) → x ≡ completed m → m ≡ n → x ≡ completed n
recount m n index same = index ∙ ap completed same

module _ (k : Kernel) {Hw : Type 0} (bus : Bus Hw) (in_irq : Bool) where
  -- The entries succeed one after the other, from one world to the next.
  pub data Succeeds : World Hw → List IoEntry → World Hw → Type 0 where
    finished : {w : World Hw} → Succeeds w [] w
    then_next :
        {w w' : World Hw} {e : IoEntry} {es : List IoEntry}
        → (process_entry k bus w in_irq e).error ≡ 0
        → Succeeds (process_entry k bus w in_irq e).world es w'
        → Succeeds w (e ∷ es) w'

  -- All entries succeeded, and the last one is the completed one; or those before some entry did,
  -- that entry failed with the stored error, and no entry after it was executed.
  pub data Executed (w : World Hw) (es : List IoEntry) (p : Progress Hw) : Type 0 where
    all_done :
        p.error_code ≡ 0
        → p.completion_index ≡ completed (length es)
        → Succeeds w es p.world
        → Executed w es p
    stopped :
        (done rest : List IoEntry) (e : IoEntry) (u : World Hw)
        → es ≡ done ++ e ∷ rest
        → Succeeds w done u
        → p.error_code ≡ (process_entry k bus u in_irq e).error
        → p.error_code ≢ 0
        → p.world ≡ (process_entry k bus u in_irq e).world
        → p.completion_index ≡ completed (length done)
        → Executed w es p

  abbrev next : ℕ → IoEntry → Progress Hw → Progress Hw
  next i e p =
      let d = process_entry k bus p.world in_irq e in
      record {
        ret = d.ret;
        error_code = p.error_code;
        completion_index = i;
        results = p.results ++ d.written;
        world = d.world;
      }

  -- The same from entry number i on, when i entries are done.
  abbrev From : ℕ → World Hw → List IoEntry → Progress Hw → Type 0
  From i w es p =
      ((p.error_code ≡ 0)
        × (p.completion_index ≡ completed (i + length es))
        × Succeeds w es p.world)
      ⊎ ((done : List IoEntry) × (rest : List IoEntry) × (e : IoEntry) × (u : World Hw) × (es
            ≡ done ++ e ∷ rest)
          × Succeeds w done u
          × (p.error_code ≡ (process_entry k bus u in_irq e).error)
          × (p.error_code ≢ 0)
          × (p.world ≡ (process_entry k bus u in_irq e).world)
          × (p.completion_index ≡ completed (i + length done)))

  one_more :
      (i : ℕ) (w : World Hw) (e : IoEntry) (es : List IoEntry) (p : Progress Hw)
      → (process_entry k bus w in_irq e).error ≡ 0
      → From (i + 1) (process_entry k bus w in_irq e).world es p
      → From i w (e ∷ es) p
  one_more i w e es p works (inl (clean, index, s)) = inl (
    clean,
    recount (i + 1 + length es) (i + length (e ∷ es)) index (omega arith),
    then_next works s,
  )
  one_more i w e es p works (inr (done, rest, f, u, split, s, error, fails, world, index)) = inr (
    e ∷ done,
    rest,
    f,
    u,
    ap (λ l. e ∷ l) split,
    then_next works s,
    error,
    fails,
    world,
    recount (i + 1 + length done) (i + length (e ∷ done)) index (omega arith),
  )

  process_entries-From :
      (i : ℕ) (es : List IoEntry) (p : Progress Hw)
      → p.error_code ≡ 0
      → p.completion_index ≡ completed i
      → From i p.world es (process_entries k bus in_irq i es p)
  unfolding process_entries
  process_entries-From i [] p clean index =
      inl (clean, recount i (i + 0) index (omega arith), finished)
  process_entries-From i (e ∷ es) p clean index =
      elim (Bool-cases (nonzero (process_entry k bus p.world in_irq e).error)) [
        | inl fails ↦ rw fails (
            inr (
              [],
              es,
              e,
              p.world,
              refl,
              finished,
              refl,
              ground arith,
              refl,
              recount i (i + 0) index (omega arith),
            ))
        | inr works ↦ rw works (
            one_more i p.world e es (process_entries k bus in_irq (i + 1) es (next i e p))
              (ground arith)
              (process_entries-From (i + 1) es (next i e p) clean
                (recount (suc i) (i + 1) refl (omega arith))))
      ]

  -- A transaction with no error so far executes its entries in order. Either all succeed: the error
  -- code is 0 and the completion index is that of the last entry, or -1 if there is none. Or it stops
  -- at the first that fails: its error is stored, the completion index is that of the entry before
  -- it, and no later entry touches the device.
  pub run_entries-Executed :
      (w : World Hw) (t : Transaction)
      → t.resp.error_code ≡ 0
      → Executed (initial_progress k bus w t).world t.info.io_entries (run_entries k bus w t in_irq)
  unfolding run_entries
  run_entries-Executed w t clean =
      elim (process_entries-From 0 t.info.io_entries (initial_progress k bus w t) clean refl) [
        | inl (error, index, s) ↦
            all_done error
              (recount (0 + length t.info.io_entries) (length t.info.io_entries) index
                (omega arith))
              s
        | inr (done, rest, f, u, split, s, error, fails, world, index) ↦
            stopped done rest f u split s error fails world
              (recount (0 + length done) (length done) index (omega arith))
      ]
