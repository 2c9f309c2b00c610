-- ===== src/Db/Event/SetState/Order.antt =====
-- The order of the state's query is an order, and its key an equivalence.
use event.Base.{
  ◌≡◌, refl, ap, Bool, true, false, Option, none, some, String, str_eq_iff, ==_iff, sym, ◌∙◌,
  eq_of_parts, arith,
}
use event.Db.Event.Raw.{RawObject}
use event.Db.Event.SetState.{
  same_label, ascending, same_key, same_partition, is_later, originates_later, by_label,
  state_order,
}
use event.Db.Rows.Order.{IsOrder, then_by-IsOrder}
use event.Db.Rows.Distinct.{IsEquivalence}

ascending-asym :
    {label_before : String → String → Bool} (o : IsOrder label_before) (l m : Option String)
    → ascending label_before l m ≡ true
    → ascending label_before m l ≡ false
ascending-asym o none m h = cc
ascending-asym o (some l) none h = refl
ascending-asym o (some l) (some m) h = o.asym l m h

ascending-co_trans :
    {label_before : String → String → Bool} (o : IsOrder label_before) (l m n : Option String)
    → ascending label_before l m ≡ false
    → ascending label_before m n ≡ false
    → ascending label_before l n ≡ false
ascending-co_trans o none m n h k = refl
ascending-co_trans o (some l) none n h k = cc
ascending-co_trans o (some l) (some m) none h k = cc
ascending-co_trans o (some l) (some m) (some n) h k = o.co_trans l m n h k

pub same_label-eq : (l m : Option String) → same_label l m ≡ true → l ≡ m
same_label-eq none none h = refl
same_label-eq none (some m) h = cc
same_label-eq (some l) none h = cc
same_label-eq (some l) (some m) h = ap some ((str_eq_iff l m).0 h)

pub same_label_self : (l : Option String) → same_label l l ≡ true
same_label_self none = refl
same_label_self (some l) = (str_eq_iff l l).1 refl

module _ {V B : Type 0} where
  pub is_later-IsOrder : IsOrder (is_later {V = V} {B = B})
  unfolding is_later
  is_later-IsOrder = record { asym = λ x y h. ground arith; co_trans = λ x y z h k. ground arith }

  originates_later-IsOrder : IsOrder (originates_later {V = V} {B = B})
  unfolding originates_later
  originates_later-IsOrder = record {
    asym = λ x y h. ground arith;
    co_trans = λ x y z h k. ground arith;
  }

  -- If the collation orders the labels, the query orders the events.
  pub state_order-IsOrder :
      {label_before : String → String → Bool}
      → IsOrder label_before
      → IsOrder (state_order {V = V} {B = B} label_before)
  unfolding state_order
  state_order-IsOrder {label_before} o = then_by-IsOrder originates_later-IsOrder (
      then_by-IsOrder {f = by_label label_before}
        (record {
          asym = λ x y. ascending-asym o x.label y.label;
          co_trans = λ x y z. ascending-co_trans o x.label y.label z.label;
        })
        is_later-IsOrder)

  pub same_key-eq :
      (e d : RawObject V B)
      → same_key e d ≡ true
      → (e.original_occurred_at ≡ d.original_occurred_at) × (e.label ≡ d.label)
  unfolding same_key
  same_key-eq e d h = ground (
    arith,
    same_label-eq e.label d.label,
    eq_of_parts e.original_occurred_at d.original_occurred_at,
  )

  pub same_key_of_eq :
      (e d : RawObject V B)
      → e.original_occurred_at ≡ d.original_occurred_at
      → e.label ≡ d.label
      → same_key e d ≡ true
  unfolding same_key
  same_key_of_eq e d h k = rw (h, k, same_label_self d.label) (ground arith)

  pub same_key-IsEquivalence : IsEquivalence (same_key {V = V} {B = B})
  same_key-IsEquivalence = record {
    reflexive = λ x. same_key_of_eq x x refl refl;
    symmetric = λ x y h. let (o, l) = same_key-eq x y h in same_key_of_eq y x (sym o) (sym l);
    transitive = λ x y z h k.
        let (o, l) = same_key-eq x y h in
        let (o', l') = same_key-eq y z k in same_key_of_eq x z (o ∙ o') (l ∙ l');
  }

  pub same_partition-eq :
      (e d : RawObject V B)
      → same_partition e d ≡ true
      → (e.room_id ≡ d.room_id) × (e.set ≡ d.set) × (e.label ≡ d.label)
  unfolding same_partition
  same_partition-eq e d h =
      ground
        (arith, ==_iff e.room_id d.room_id, str_eq_iff e.set d.set, same_label-eq e.label d.label)

  pub same_partition_self : (e : RawObject V B) → same_partition e e ≡ true
  unfolding same_partition
  same_partition_self e =
      ground (arith, ==_iff e.room_id e.room_id, str_eq_iff e.set e.set, same_label_self e.label)
