-- ===== src/Db/Rows/Distinct.antt =====
-- `DISTINCT ON` keeps the first row of each key, and `bool_or` over a window.
use event.Base.{
  ◌≡◌, refl, sym, Bool, true, false, Bool-cases, not, inl, inr, List, [], ◌∷◌, All, In, arith, ◌∙◌,
}
use event.Db.Rows.{select, distinct_on, bool_or}
use event.Db.Rows.Order.{IsSorted, IsOrder, select-All, All-map, All-select_both, In-select}

module _ {A : Type 0} where
  -- The laws of "has the same key".
  pub record IsEquivalence (same : A → A → Bool) : Type 0 where
    pub reflexive : (x : A) → same x x ≡ true
    pub symmetric : (x y : A) → same x y ≡ true → same y x ≡ true
    pub transitive : (x y z : A) → same x y ≡ true → same y z ≡ true → same x z ≡ true

  -- Nothing of the key of this row comes before it.
  abbrev pub IsFirstOfKey : (A → A → Bool) → (A → A → Bool) → List A → A → Type 0
  IsFirstOfKey same before es e = All (λ d. same e d ≡ true → before d e ≡ false) es

  -- A kept row of this key.
  abbrev pub Represents : (A → A → Bool) → List A → A → Type 0
  Represents same es x = (e : A) × In e es × (same e x ≡ true)

  pub All-distinct_on :
      (P : A → Type 0) (same : A → A → Bool) (es : List A) → All P es → All P (distinct_on same es)
  unfolding distinct_on
  All-distinct_on P same [] h = tt
  All-distinct_on P same (e ∷ es) (h, hs) =
      (h, select-All P (λ d. not (same e d)) (distinct_on same es) (All-distinct_on P same es hs))

  module _ {same before : A → A → Bool} (q : IsEquivalence same) (o : IsOrder before) where
    irreflexive : (x : A) → before x x ≡ false
    irreflexive x = ground (arith, o.asym x x)

    -- A kept row is the first of its key.
    pub distinct_on-IsFirstOfKey :
        (es : List A) → IsSorted before es → All (IsFirstOfKey same before es) (distinct_on same es)
    unfolding distinct_on
    distinct_on-IsFirstOfKey [] h = tt
    distinct_on-IsFirstOfKey (a ∷ es) (h, hs) = (
      (λ _. irreflexive a, All-map _ _ es (λ d k _. k) h),
      All-select_both (IsFirstOfKey same before es) (IsFirstOfKey same before (a ∷ es)) _
          (distinct_on same es) (λ e b k. (λ r. ground (arith, q.symmetric e a), k))
          (distinct_on-IsFirstOfKey es hs),
    )

    -- Every row has a kept row of its key.
    pub distinct_on-Represents :
        (x : A) (es : List A) → In x es → Represents same (distinct_on same es) x
    unfolding distinct_on
    distinct_on-Represents x [] i = absurd i
    distinct_on-Represents x (a ∷ es) (inl h) = (a, inl refl, rw h (q.reflexive a))
    distinct_on-Represents x (a ∷ es) (inr i) =
        let (e, k, r) = distinct_on-Represents x es i in
        elim (Bool-cases (same a e)) [
          | inl b ↦ (a, inl refl, q.transitive a e x b r)
          | inr b ↦ (e, inr (In-select (λ d. not (same a d)) e _ k (rw b refl)), r)
        ]

  module _ (same before : A → A → Bool) (p : A → Bool) (e : A) where
    bool_or-In :
        (ds : List A)
        → p e ≡ true
        → same e e ≡ true
        → before e e ≡ false
        → In e ds
        → bool_or same before p ds e ≡ true
    unfolding bool_or
    bool_or-In [] h r i k = absurd k
    bool_or-In (d ∷ ds) h r i (inl k) = rw (sym k, r, i, h) refl
    bool_or-In (d ∷ ds) h r i (inr k) = ground (arith, bool_or-In ds h r i k)

    bool_or-none :
        (ds : List A)
        → All (λ d. same e d ≡ true → before e d ≡ false → p d ≡ false) ds
        → bool_or same before p ds e ≡ false
    unfolding bool_or
    bool_or-none [] h = refl
    bool_or-none (d ∷ ds) (h, hs) = ground (arith, h, bool_or-none ds hs)

    -- Where the rows up to this one agree with it, they decide as it does.
    pub bool_or_lem :
        (ds : List A)
        → All (λ d. same e d ≡ true → before e d ≡ false → p d ≡ p e) ds
        → same e e ≡ true
        → before e e ≡ false
        → In e ds
        → bool_or same before p ds e ≡ p e
    bool_or_lem ds h r i k = elim (Bool-cases (p e)) [
      | inl b ↦ bool_or-In ds b r i k ∙ sym b
      | inr b ↦ bool_or-none ds (All-map _ _ ds (λ d f u v. f u v ∙ b) h) ∙ sym b
    ]

  -- Tests that agree on all rows take the same rows.
  pub select-eq :
      (p r : A → Bool) (es : List A) → All (λ e. p e ≡ r e) es → select p es ≡ select r es
  unfolding select
  select-eq p r [] h = refl
  select-eq p r (e ∷ es) (h, hs) = rw (h, select-eq p r es hs) refl
