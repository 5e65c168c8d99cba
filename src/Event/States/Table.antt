-- ===== src/Event/States/Table.antt =====
-- Tables keyed by event id: `hash_for_each_possible` with the test of the key, and writes through the
-- pointer that it finds.
use google_lwis.Prelude.{
  ℕ, ◌≡◌, Option, none, some, List, [], ◌∷◌, arith, ◌==◌, if◌then◌else◌, All, Bool-cases, inl, inr,
  subst,
}

module _ {S : Type 0} (key : S → ℕ) where
  unfoldable pub find : List S → ℕ → Option S
  find [] id = none
  find (s ∷ t) id = if key s == id then some s else find t id

  unfoldable pub modify : List S → ℕ → (S → S) → List S
  modify [] id f = []
  modify (s ∷ t) id f = if key s == id then f s ∷ t else s ∷ modify t id f

  pub key-find : (t : List S) (id : ℕ) (s : S) → find t id ≡ some s → key s ≡ id
  unfolding find
  key-find [] id s h = ground arith
  key-find (x ∷ t) id s h = ground (arith, key-find t id s)

  -- A write that keeps the key is seen under its own key and under no other.
  pub find-modify :
      (t : List S) (id other : ℕ) (f : S → S)
      → ((s : S) → key (f s) ≡ key s)
      → find (modify t id f) other ≡ (
          if id == other
          then elim (find t id) [ none ↦ none | some s ↦ some (f s) ]
          else find t other)
  unfolding find modify
  find-modify [] id other f same = ground arith
  find-modify (x ∷ t) id other f same = ground (arith, same x, find-modify t id other f same)

  -- What holds of all entries holds of the one that is found, and stays true under a write that keeps
  -- it true.
  pub All-find : (P : S → Type 0) (t : List S) (id : ℕ) (s : S) → All P t → find t id ≡ some s → P s
  unfolding find
  All-find P [] id s h e = ground arith
  All-find P (x ∷ t) id s h e = elim (Bool-cases (key x == id)) [
    | inl hit ↦ subst P (cc) h.0
    | inr miss ↦ All-find P t id s h.1 (ground arith)
  ]

  pub All-modify :
      (P : S → Type 0) (t : List S) (id : ℕ) (f : S → S)
      → ((s : S) → P s → P (f s))
      → All P t
      → All P (modify t id f)
  unfolding modify
  All-modify P [] id f keep h = tt
  All-modify P (x ∷ t) id f keep h = elim (Bool-cases (key x == id)) [
    | inl hit ↦ rw hit (keep x h.0, h.1)
    | inr miss ↦ rw miss (h.0, All-modify P t id f keep h.1)
  ]
