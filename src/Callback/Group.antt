-- ===== src/Callback/Group.antt =====
-- `dataMap := make(map[string][]Record)`, filled by `dataMap[key] = append(dataMap[key], record)`.
use report_api.Prelude.{
  ◌≡◌, refl, Option, none, some, List, [], ◌∷◌, ◌++◌, ap, sym, append_assoc, append-nil, arith, All,
  Bool-cases, inl, inr, if◌then◌else◌,
}
use report_api.Go.Text.{Str, str_eq, str_eq_iff, str_eq→eq}

module _ {ℓ} {R : Type ℓ} where
  unfoldable pub lookup : Str → List (Str × List R) → Option (List R)
  lookup k [] = none
  lookup k ((j, rs) ∷ g) = if str_eq j k then some rs else lookup k g

  unfoldable pub append_at : Str → R → List (Str × List R) → List (Str × List R)
  append_at k r [] = (k, r ∷ []) ∷ []
  append_at k r ((j, rs) ∷ g) =
      if str_eq j k then (j, rs ++ r ∷ []) ∷ g else (j, rs) ∷ append_at k r g

  -- Every record under its key, in the order of the rows.
  unfoldable pub group_from : List (Str × List R) → List (Str × R) → List (Str × List R)
  unfolding append_at
  group_from g [] = g
  group_from g ((k, r) ∷ keyed) = group_from (append_at k r g) keyed

  -- The records under one key, in order.
  unfoldable pub under : Str → List (Str × R) → List R
  under k [] = []
  under k ((j, r) ∷ keyed) = if str_eq j k then r ∷ under k keyed else under k keyed

  -- A key with records: a map holds no empty list.
  abbrev pub add_under : Option (List R) → List R → Option (List R)
  add_under (some rs) more = some (rs ++ more)
  add_under none [] = none
  add_under none (r ∷ more) = some (r ∷ more)

  lookup-append_at :
      (k j : Str) (r : R) (g : List (Str × List R))
      → lookup j (append_at k r g)
        ≡ (if str_eq k j then add_under (lookup j g) (r ∷ []) else lookup j g)
  unfolding lookup append_at
  lookup-append_at k j r [] = ground arith
  lookup-append_at k j r ((i, rs) ∷ g) =
      ground (arith, lookup-append_at k j r g, str_eq_iff i k, str_eq_iff i j, str_eq_iff k j)

  add_under-cons :
      (o : Option (List R)) (r : R) (more : List R)
      → add_under (add_under o (r ∷ [])) more ≡ add_under o (r ∷ more)
  add_under-cons none r more = refl
  add_under-cons (some rs) r more = ap some (append_assoc rs (r ∷ []) more)

  lookup-group_from :
      (k : Str) (g : List (Str × List R)) (keyed : List (Str × R))
      → lookup k (group_from g keyed) ≡ add_under (lookup k g) (under k keyed)
  unfolding group_from under
  lookup-group_from k g [] = add_under-nil (lookup k g)
    where
      add_under-nil : (o : Option (List R)) → o ≡ add_under o []
      add_under-nil none = refl
      add_under-nil (some rs) = ap some (sym (append-nil rs))
  lookup-group_from k g ((j, r) ∷ keyed) = ground (
    arith,
    lookup-group_from k (append_at j r g) keyed,
    lookup-append_at j k r g,
    add_under-cons (lookup k g) r (under k keyed),
  )

  -- The table built from rows holds, under each key, exactly the records of the rows with that key, in
  -- the order of the rows; a key that no row has is absent.
  pub lookup-group :
      (k : Str) (keyed : List (Str × R))
      → lookup k (group_from [] keyed) ≡ add_under none (under k keyed)
  unfolding lookup
  lookup-group k keyed = lookup-group_from k [] keyed

  -- A property of each record filed under a key that holds of its rows.
  pub All-under {κ} :
      (k : Str) (keyed : List (Str × R)) (P : R → Type κ)
      → All (λ (p : Str × R). p.0 ≡ k → P p.1) keyed
      → All P (under k keyed)
  unfolding under
  All-under k [] P h = tt
  All-under k ((j, r) ∷ keyed) P (h, hs) = elim (Bool-cases (str_eq j k)) [
    | inl same ↦ rw (same, under) (h (str_eq→eq j k same), All-under k keyed P hs)
    | inr other ↦ rw (other, under) (All-under k keyed P hs)
  ]
