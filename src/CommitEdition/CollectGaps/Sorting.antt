-- ===== src/CommitEdition/CollectGaps/Sorting.antt =====
-- The sorting of the cuts by time keeps them all (`collect_gaps` of
-- `src/app/operations/commit_edition.rs`).
use event.Base.{ℤ, List, [], ◌∷◌, Bool-cases, inl, inr, ltb_ℤ, ◌≤ℤ◌, arith}
use mathlib.Core.List.{Perm}
use mathlib.Core.List.Perm
use event.CommitEdition.CollectGaps.{EventOrChangeAtDur, key, insert_by_key, sort_by_key}

module _ {W : Type 0} where
  -- In order of the keys, from a bound on.
  abbrev pub IsSortedFrom : ℤ → List (EventOrChangeAtDur W) → Type 0
  IsSortedFrom lo [] = Unit
  IsSortedFrom lo (v ∷ vs) = (lo ≤ℤ key v) × IsSortedFrom (key v) vs

  abbrev pub IsSorted : List (EventOrChangeAtDur W) → Type 0
  IsSorted [] = Unit
  IsSorted (v ∷ vs) = IsSortedFrom (key v) vs

  insert_by_key-from :
      (lo : ℤ) (v : EventOrChangeAtDur W) (vs : List (EventOrChangeAtDur W))
      → lo ≤ℤ key v
      → IsSortedFrom lo vs
      → IsSortedFrom lo (insert_by_key v vs)
  unfolding insert_by_key
  insert_by_key-from lo v [] l h = (l, tt)
  insert_by_key-from lo v (w ∷ ws) l h = ground (arith, insert_by_key-from (key w) v ws)

  insert_by_key-IsSorted :
      (v : EventOrChangeAtDur W) (vs : List (EventOrChangeAtDur W))
      → IsSorted vs
      → IsSorted (insert_by_key v vs)
  unfolding insert_by_key
  insert_by_key-IsSorted v [] h = tt
  insert_by_key-IsSorted v (w ∷ ws) h = ground (arith, insert_by_key-from (key w) v ws)

  -- The sorted list is in order of the keys.
  pub sort_by_key-IsSorted : (vs : List (EventOrChangeAtDur W)) → IsSorted (sort_by_key vs)
  unfolding sort_by_key
  sort_by_key-IsSorted [] = tt
  sort_by_key-IsSorted (v ∷ vs) =
      insert_by_key-IsSorted v (sort_by_key vs) (sort_by_key-IsSorted vs)

  insert_by_key-perm :
      (v : EventOrChangeAtDur W) (vs : List (EventOrChangeAtDur W))
      → Perm (insert_by_key v vs) (v ∷ vs)
  unfolding insert_by_key
  insert_by_key-perm v [] = Perm.refl _
  insert_by_key-perm v (w ∷ ws) = elim (Bool-cases (ltb_ℤ (key w) (key v))) [
    | inl e ↦ rw e (Perm.trans (Perm.cons w (insert_by_key-perm v ws)) (Perm.swap v w ws))
    | inr e ↦ rw e (Perm.refl _)
  ]

  -- Sorting loses nothing and adds nothing.
  pub sort_by_key-perm : (vs : List (EventOrChangeAtDur W)) → Perm (sort_by_key vs) vs
  unfolding sort_by_key
  sort_by_key-perm [] = Perm.refl _
  sort_by_key-perm (v ∷ vs) =
      Perm.trans (insert_by_key-perm v (sort_by_key vs)) (Perm.cons v (sort_by_key-perm vs))
