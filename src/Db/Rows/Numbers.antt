-- ===== src/Db/Rows/Numbers.antt =====
-- `ROW_NUMBER`: the first row of a partition.
use event.Base.{
  map, ℕ, suc, ◌≡◌, refl, ap, subst, Bool, false, Bool-cases, inl, inr, not, ◌&&◌, List, [], ◌∷◌,
  ◌++◌, All, length, length-append, arith,
}
use event.Db.Rows.{select, rows_ahead, row_numbers}
use event.Db.Rows.Order.{IsOrder, All-map}
use event.Db.Rows.Distinct.{IsFirstOfKey}

module _ {A : Type 0} where
  append_assoc : (xs ys zs : List A) → (xs ++ ys) ++ zs ≡ xs ++ (ys ++ zs)
  append_assoc [] ys zs = refl
  append_assoc (x ∷ xs) ys zs = ap (◌∷◌ x) (append_assoc xs ys zs)

  pub All-append_both : (P : A → Type 0) (xs ys : List A) → All P xs → All P ys → All P (xs ++ ys)
  All-append_both P [] ys h k = k
  All-append_both P (x ∷ xs) ys (h, hs) k = (h, All-append_both P xs ys hs k)

  -- A test that takes no row.
  select-none : (p : A → Bool) (es : List A) → length (select p es) ≡ 0 → All (λ e. p e ≡ false) es
  unfolding select
  select-none p [] h = tt
  select-none p (e ∷ es) h = elim (Bool-cases (p e)) [
    | inl b ↦ absurd (omega (arith, (rw (select, b) at h)))
    | inr b ↦ (b, select-none p es (rw (select, b) at h))
  ]

  module _ {before : A → A → Bool} (o : IsOrder before) (same : A → A → Bool) where
    irreflexive : (e : A) → before e e ≡ false
    irreflexive e = ground (arith, o.asym e e)

    rows_ahead-none :
        (earlier : List A) (e : A) (later : List A)
        → length (rows_ahead same before earlier e later) ≡ 0
        → IsFirstOfKey same before (earlier ++ e ∷ later) e
    unfolding rows_ahead
    rows_ahead-none earlier e later h =
        let sum =
          length-append (select (λ d. same e d && not (before e d)) earlier)
            (select (λ d. same e d && before d e) later) in
        All-append_both _ earlier (e ∷ later)
          (All-map _ _ earlier (λ d k r. o.asym e d (ground arith))
            (select-none (λ d. same e d && not (before e d)) earlier (omega (arith, sum, h))))
          (
            λ r. irreflexive e,
            All-map _ _ later (λ d k r. ground arith)
                (select-none (λ d. same e d && before d e) later (omega (arith, sum, h))),
          )

    -- The number of a row counts those that are ahead of it.
    abbrev pub IsNumbered : List A → ℕ × A → Type 0
    IsNumbered es e =
        (earlier : List A) × (later : List A) × (earlier ++ e.1 ∷ later ≡ es)
        × (e.0 ≡ suc (length (rows_ahead same before earlier (e.1) later)))

    IsNumbered-suffix :
        (earlier es : List A)
        → All (IsNumbered (earlier ++ es)) (row_numbers same before earlier es)
    unfolding row_numbers
    IsNumbered-suffix earlier [] = tt
    IsNumbered-suffix earlier (e ∷ es) = (
      (earlier, es, refl, refl),
      subst (λ xs. All (IsNumbered xs) (row_numbers same before (earlier ++ e ∷ []) es))
          (append_assoc earlier (e ∷ []) es) (IsNumbered-suffix (earlier ++ e ∷ []) es),
    )

    pub row_numbers-IsNumbered : (es : List A) → All (IsNumbered es) (row_numbers same before [] es)
    row_numbers-IsNumbered es = IsNumbered-suffix [] es

    row_numbers-suffix :
        (earlier es : List A)
        → All
            (λ e. e.0 ≡ 1 → IsFirstOfKey same before (earlier ++ es) (e.1))
            (row_numbers same before earlier es)
    unfolding row_numbers
    row_numbers-suffix earlier [] = tt
    row_numbers-suffix earlier (e ∷ es) = (
      λ h. rows_ahead-none earlier e es (omega arith),
      rw append_assoc at (row_numbers-suffix (earlier ++ e ∷ []) es),
    )

    -- In the row with the number 1, nothing of its partition comes before it.
    pub row_numbers-IsFirstOfKey :
        (es : List A)
        → All (λ e. e.0 ≡ 1 → IsFirstOfKey same before es (e.1)) (row_numbers same before [] es)
    row_numbers-IsFirstOfKey es = row_numbers-suffix [] es

    -- The rows are numbered, and kept.
    pub All-row_numbers :
        (P : A → Type 0) (earlier es : List A)
        → All P es
        → All (λ e. P (e.1)) (row_numbers same before earlier es)
    unfolding row_numbers
    All-row_numbers P earlier [] h = tt
    All-row_numbers P earlier (e ∷ es) (h, hs) = (h, All-row_numbers P (earlier ++ e ∷ []) es hs)

  pub All-map_list :
      {C : Type 0} (P : C → Type 0) (f : A → C) (es : List A)
      → All (λ e. P (f e)) es
      → All P (map f es)
  All-map_list P f [] h = tt
  All-map_list P f (e ∷ es) (h, hs) = (h, All-map_list P f es hs)
