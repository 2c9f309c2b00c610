-- ===== src/Db/Rows/Order.antt =====
-- `ORDER BY` sorts the rows, and keeps them.
use event.Base.{
  ◌≡◌, refl, sym, subst, Bool, true, false, Bool-cases, inl, inr, List, [], ◌∷◌, All, In, arith,
}
use event.Db.Rows.{select, insert_ordered, order_by, then_by}

module _ {A : Type 0} where
  -- The laws of an order in which rows may be peers.
  pub record IsOrder (before : A → A → Bool) : Type 0 where
    pub asym : (x y : A) → before x y ≡ true → before y x ≡ false
    pub co_trans : (x y z : A) → before x y ≡ false → before y z ≡ false → before x z ≡ false

  -- Nothing comes before this row.
  abbrev pub IsFirst : (A → A → Bool) → A → List A → Type 0
  IsFirst before e = All (λ d. before d e ≡ false)

  abbrev pub IsSorted : (A → A → Bool) → List A → Type 0
  IsSorted before [] = Unit
  IsSorted before (e ∷ es) = IsFirst before e es × IsSorted before es

  pub then_by-IsOrder : {f g : A → A → Bool} → IsOrder f → IsOrder g → IsOrder (then_by f g)
  unfolding then_by
  then_by-IsOrder {f} {g} p q = record {
    asym = λ x y h. ground (arith, p.asym x y, q.asym x y);
    co_trans = λ x y z h k.
        ground (arith, p.co_trans x y z, p.co_trans z x y, p.co_trans y z x, q.co_trans x y z);
  }

  pub All-In : (P : A → Type 0) (x : A) (xs : List A) → All P xs → In x xs → P x
  All-In P x [] h i = absurd i
  All-In P x (y ∷ ys) (h, hs) (inl e) = subst P (sym e) h
  All-In P x (y ∷ ys) (h, hs) (inr i) = All-In P x ys hs i

  All_weaken : (x : A) (es ds : List A) → All (λ e. In e es) ds → All (λ e. In e (x ∷ es)) ds
  All_weaken x es [] h = tt
  All_weaken x es (d ∷ ds) (h, hs) = (inr h, All_weaken x es ds hs)

  pub All_self : (es : List A) → All (λ e. In e es) es
  All_self [] = tt
  All_self (e ∷ es) = (inl refl, All_weaken e es es (All_self es))

  module _ {before : A → A → Bool} (o : IsOrder before) where
    IsFirst-insert_ordered :
        (x e : A) (ds : List A)
        → before e x ≡ false
        → IsFirst before x ds
        → IsFirst before x (insert_ordered before e ds)
    unfolding insert_ordered
    IsFirst-insert_ordered x e [] h k = (h, tt)
    IsFirst-insert_ordered x e (d ∷ ds) h (k, ks) = elim (Bool-cases (before d e)) [
      | inl b ↦ rw (insert_ordered, b) (k, IsFirst-insert_ordered x e ds h ks)
      | inr b ↦ rw (insert_ordered, b) (h, (k, ks))
    ]

    IsFirst-trans :
        (e d : A) (ds : List A) → before d e ≡ false → IsFirst before d ds → IsFirst before e ds
    IsFirst-trans e d [] h k = tt
    IsFirst-trans e d (c ∷ ds) h (k, ks) = (o.co_trans c d e k h, IsFirst-trans e d ds h ks)

    insert_ordered-IsSorted :
        (e : A) (ds : List A) → IsSorted before ds → IsSorted before (insert_ordered before e ds)
    unfolding insert_ordered
    insert_ordered-IsSorted e [] h = (tt, tt)
    insert_ordered-IsSorted e (d ∷ ds) (h, hs) = elim (Bool-cases (before d e)) [
      | inl b ↦
          rw (insert_ordered, b)
            (IsFirst-insert_ordered d e ds (o.asym d e b) h, insert_ordered-IsSorted e ds hs)
      | inr b ↦ rw (insert_ordered, b) ((b, IsFirst-trans e d ds b h), (h, hs))
    ]

    pub order_by-IsSorted : (es : List A) → IsSorted before (order_by before es)
    unfolding order_by
    order_by-IsSorted [] = tt
    order_by-IsSorted (e ∷ es) =
        insert_ordered-IsSorted e (order_by before es) (order_by-IsSorted es)

  module _ (before : A → A → Bool) where
    In-insert_ordered : (x e : A) (ds : List A) → In x (e ∷ ds) → In x (insert_ordered before e ds)
    unfolding insert_ordered
    In-insert_ordered x e [] i = i
    In-insert_ordered x e (d ∷ ds) i = elim (Bool-cases (before d e)) [
      | inl b ↦
          rw (insert_ordered, b)
            (elim i [
              | inl h ↦ inr (In-insert_ordered x e ds (inl h))
              | inr (inl h) ↦ inl h
              | inr (inr h) ↦ inr (In-insert_ordered x e ds (inr h))
            ])
      | inr b ↦ rw (insert_ordered, b) i
    ]

    -- The rows in order are those of the table.
    pub In-order_by : (x : A) (es : List A) → In x es → In x (order_by before es)
    unfolding order_by
    In-order_by x [] i = i
    In-order_by x (e ∷ es) (inl h) = In-insert_ordered x e (order_by before es) (inl h)
    In-order_by x (e ∷ es) (inr i) =
        In-insert_ordered x e (order_by before es) (inr (In-order_by x es i))

    All-insert_ordered :
        (P : A → Type 0) (e : A) (ds : List A) → P e → All P ds → All P (insert_ordered before e ds)
    unfolding insert_ordered
    All-insert_ordered P e [] h hs = (h, tt)
    All-insert_ordered P e (d ∷ ds) h (k, ks) = elim (Bool-cases (before d e)) [
      | inl b ↦ rw (insert_ordered, b) (k, All-insert_ordered P e ds h ks)
      | inr b ↦ rw (insert_ordered, b) (h, (k, ks))
    ]

    pub All-order_by : (P : A → Type 0) (es : List A) → All P es → All P (order_by before es)
    unfolding order_by
    All-order_by P [] h = tt
    All-order_by P (e ∷ es) (h, hs) =
        All-insert_ordered P e (order_by before es) h (All-order_by P es hs)

  -- What holds of the rows that `WHERE` takes.
  pub All-select :
      (P : A → Type 0) (p : A → Bool) (es : List A)
      → ((e : A) → p e ≡ true → P e)
      → All P (select p es)
  unfolding select
  All-select P p [] h = tt
  All-select P p (e ∷ es) h = elim (Bool-cases (p e)) [
    | inl b ↦ rw (select, b) (h e b, All-select P p es h)
    | inr b ↦ rw (select, b) (All-select P p es h)
  ]

  pub In-select : (p : A → Bool) (x : A) (es : List A) → In x es → p x ≡ true → In x (select p es)
  unfolding select
  In-select p x [] i h = i
  In-select p x (e ∷ es) i h = elim (Bool-cases (p e)) [
    | inl b ↦ rw (select, b) (elim i [ inl k ↦ inl k | inr k ↦ inr (In-select p x es k h) ])
    | inr b ↦ rw (select, b) (elim i [ inl k ↦ cc | inr k ↦ In-select p x es k h ])
  ]

  pub select-All : (P : A → Type 0) (p : A → Bool) (es : List A) → All P es → All P (select p es)
  unfolding select
  select-All P p [] h = tt
  select-All P p (e ∷ es) (h, hs) = elim (Bool-cases (p e)) [
    | inl b ↦ rw (select, b) (h, select-All P p es hs)
    | inr b ↦ rw (select, b) (select-All P p es hs)
  ]

  pub All-map : (P Q : A → Type 0) (es : List A) → ((e : A) → P e → Q e) → All P es → All Q es
  All-map P Q [] f h = tt
  All-map P Q (e ∷ es) f (h, hs) = (f e h, All-map P Q es f hs)

  -- What holds of the rows, and of those that `WHERE` takes.
  pub All-select_both :
      (P Q : A → Type 0) (p : A → Bool) (es : List A)
      → ((e : A) → p e ≡ true → P e → Q e)
      → All P es
      → All Q (select p es)
  unfolding select
  All-select_both P Q p [] f h = tt
  All-select_both P Q p (e ∷ es) f (h, hs) = elim (Bool-cases (p e)) [
    | inl b ↦ rw (select, b) (f e b h, All-select_both P Q p es f hs)
    | inr b ↦ rw (select, b) (All-select_both P Q p es f hs)
  ]

  pub All-and : (P Q : A → Type 0) (es : List A) → All P es → All Q es → All (λ e. P e × Q e) es
  All-and P Q [] h k = tt
  All-and P Q (e ∷ es) (h, hs) (k, ks) = ((h, k), All-and P Q es hs ks)
