-- ===== src/Supply/Regulator/Unique.antt =====
-- The names in a list of regulators.
use google_lwis.Prelude.{
  ℕ, zero, suc, ◌+◌, ◌≤◌, ◌≡◌, ◌≢◌, refl, ap, inl, inr, true, Option, none, some, List, [], ◌∷◌,
  arith, ◌==◌, if◌then◌else◌, set, Option-cases, Bool-cases,
}
use google_lwis.Supply.{Name, same_name, Got, handle, refused}
use google_lwis.Supply.Regulator.{
  Regulator, RegulatorApi, Search, already, ended, has_name, search, lwis_regulator_get,
}

-- How many regulators of a list have a name.
abbrev pub named : List Regulator → Name → ℕ
named [] name = 0
named (r ∷ rs) name = (if has_name r name then 1 else 0) + named rs name

-- A slot without a handle has no name.
abbrev pub IsTidy : List Regulator → Type 0
IsTidy [] = Unit
IsTidy (r ∷ rs) = (r.reg ≡ 0 → r.name ≡ none) × IsTidy rs

-- A name is the same as two names or as neither of them, if these are the same.
same_name_join : (m n p : Name) → same_name m n ≡ true → same_name p n ≡ same_name p m
same_name_join [] [] p h = refl
same_name_join [] (y ∷ n) p h = ground arith
same_name_join (x ∷ m) [] p h = ground arith
same_name_join (x ∷ m) (y ∷ n) [] h = refl
same_name_join (x ∷ m) (y ∷ n) (z ∷ p) h = ground (arith, same_name_join m n p)

-- A name that is not found is not in the list.
search-named :
    (rs : List Regulator) (name : Name) (i : ℕ) (index o : Option ℕ)
    → IsTidy rs
    → search rs name i index ≡ ended o
    → named rs name ≡ 0
unfolding search
search-named [] name i index o tidy e = refl
search-named (r ∷ rs) name i index o tidy e = elim (Bool-cases (r.reg == 0)) [
  | inl empty ↦
      ground (arith, tidy.0, search-named rs name (i + 1) (some i) o tidy.1 (ground arith))
  | inr used ↦ (elim (Bool-cases (has_name r name)) [
    | inl hit ↦ ground arith
    | inr miss ↦ ground (arith, search-named rs name (i + 1) index o tidy.1 (ground arith))
  ])
]

named-set :
    (rs : List Regulator) (i : ℕ) (r : Regulator) (q : Name)
    → named (set rs i r) q ≤ named rs q + (if has_name r q then 1 else 0)
named-set [] i r q = omega arith
named-set (x ∷ rs) zero r q = omega arith
named-set (x ∷ rs) (suc i) r q = omega (arith, named-set rs i r q)

named_same :
    (rs : List Regulator) (name q : Name) → same_name name q ≡ true → named rs q ≡ named rs name
named_same [] name q h = refl
named_same (r ∷ rs) name q h = elim (Option-cases r.name) [
  | inl none_such ↦ ground (arith, named_same rs name q h)
  | inr (n, there) ↦ ground (arith, named_same rs name q h, same_name_join name q n h)
]

IsTidy-set :
    (rs : List Regulator) (i : ℕ) (r : Regulator)
    → (r.reg ≡ 0 → r.name ≡ none)
    → IsTidy rs
    → IsTidy (set rs i r)
IsTidy-set [] i r new tidy = tt
IsTidy-set (x ∷ rs) zero r new tidy = (new, tidy.1)
IsTidy-set (x ∷ rs) (suc i) r new tidy = (tidy.0, IsTidy-set rs i r new tidy.1)

-- No name is in a list twice.
pub record IsUnique (rs : List Regulator) : Type 0 where
  pub tidy : IsTidy rs
  pub once : (q : Name) → named rs q ≤ 1

-- The kernel gives out no NULL handle.
abbrev pub IsGiving : {Hw : Type 0} → RegulatorApi Hw → Type 0
IsGiving {Hw} api =
    (hw hw' : Hw) (name : Name) (reg : ℕ)
    → api.devm_regulator_get hw name ≡ (handle reg, hw')
    → reg ≢ 0

module _ {Hw : Type 0} (api : RegulatorApi Hw) where
  -- A new name in a slot of a list that did not have it.
  set-IsUnique :
      (rs : List Regulator) (i reg voltage : ℕ) (name : Name)
      → IsUnique rs
      → named rs name ≡ 0
      → reg ≢ 0
      → IsUnique (set rs i (record { reg = reg; name = some name; voltage = voltage }))
  set-IsUnique rs i reg voltage name unique absent given =
      let r : Regulator = record { reg = reg; name = some name; voltage = voltage } in
      record {
        tidy = IsTidy-set rs i r (λ e. absurd (given e)) unique.tidy;
        once = λ q. elim (Bool-cases (same_name name q)) [
          | inl same ↦ ground (arith, named-set rs i r q, named_same rs name q same)
          | inr differs ↦ ground (arith, named-set rs i r q, unique.once q)
        ];
      }

  -- Provided that the kernel gives out no NULL handle, lwis_regulator_get keeps it true that no name is
  -- in the list twice and that empty slots have no name, whatever it returns.
  pub regulator_get-IsUnique :
      (hw : Hw) (list : List Regulator) (name : Name) (voltage : ℕ)
      → IsGiving api
      → IsUnique list
      → IsUnique ((lwis_regulator_get api hw list name voltage).1)
  unfolding lwis_regulator_get
  regulator_get-IsUnique hw list name voltage giving unique =
      by_search (search list name 0 none) refl
    where
      by_search :
          (s : Search)
          → search list name 0 none ≡ s
          → IsUnique ((lwis_regulator_get api hw list name voltage).1)
      by_search (already i) e = rw (lwis_regulator_get, e) unique
      by_search (ended none) e = rw (lwis_regulator_get, e) unique
      by_search (ended (some i)) e = by_answer (api.devm_regulator_get hw name).0 refl
        where
          by_answer :
              (g : Got)
              → (api.devm_regulator_get hw name).0 ≡ g
              → IsUnique ((lwis_regulator_get api hw list name voltage).1)
          by_answer (refused err) d = rw (lwis_regulator_get, e, d) unique
          by_answer (handle reg) d =
              rw (lwis_regulator_get, e, d)
                (set-IsUnique list i reg voltage name unique
                  (search-named list name 0 none (some i) unique.tidy e)
                  (giving hw (api.devm_regulator_get hw name).1 name reg
                    (ap (λ g. (g, (api.devm_regulator_get hw name).1)) d)))
