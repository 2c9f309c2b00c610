-- ===== src/Db/Event/SetState/Returns.antt =====
-- What the queries of `src/db/event/set_state.rs` return.
use event.Base.{
  Bool, ℕ, ℤ, pos, negsuc, suc, zero, ◌≤◌, ◌≡◌, refl, sym, ap, Option, String, List, [], ◌∷◌, ok,
  length, pos_part, neg_part, ◌≤ℤ◌, >>=-eq-ok, arith,
}
use event.Db.Event
use event.Db.Event.Queries.{from_rows}
use event.Db.Event.Raw.{RawObject, from_raw}
use event.Db.Event.SetState.{
  Query, execute, total_count, state_rows, counted_rows, limit_rows, decode_rows,
}
use event.Db.Queries.{QueryError, refused}
use event.Db.Queries.Laws.{from_decoded-ok, ok_value, read-Returns}
use event.Db.Rows.{take_first}
use event.Db.Session.{Tables}
use event.Db.Session.Returns.{Returns}

pub take_first-le : {A : Type 0} (n : ℕ) (es : List A) → length (take_first n es) ≤ n
unfolding take_first
take_first-le zero es = omega arith
take_first-le (suc n) [] = omega arith
take_first-le (suc n) (e ∷ es) = omega (arith, take_first-le n es)

module _ {V B : Type 0} where
  pub from_rows-length :
      (into_json : B → Option V) (rows : List (RawObject V B)) (events : List (Event.Object V))
      → from_rows into_json rows ≡ ok events
      → length events ≡ length rows
  unfolding from_rows
  from_rows-length into_json [] events h = rw (sym (ok_value h)) refl
  from_rows-length into_json (e ∷ es) events h =
      let (o, _, k) = >>=-eq-ok (from_raw into_json e) _ h in
      let (os, k', same) = >>=-eq-ok (from_rows into_json es) _ k in
      rw (sym (ok_value same)) (ap suc (from_rows-length into_json es os k'))

  -- The events are the first of the state, as many as the limit allows.
  abbrev pub Selects :
      (String → String → Bool)
      → (B → Option V)
      → Query
      → List (RawObject V B)
      → List (Event.Object V)
      → Type 0
  Selects label_before into_json q rows events =
      (n : ℕ) × (q.limit ≡ pos n)
      × (from_rows into_json (take_first n (state_rows label_before q rows)) ≡ ok events)

  pub Selects-length :
      (label_before : String → String → Bool) (into_json : B → Option V) (q : Query)
      (rows : List (RawObject V B)) (events : List (Event.Object V)) (m : ℕ)
      → Selects label_before into_json q rows events
      → q.limit ≤ℤ pos m
      → length events ≤ m
  Selects-length label_before into_json q rows events m (n, h, k) le = omega (
    arith,
    from_rows-length into_json _ events k,
    take_first-le n (state_rows label_before q rows),
    ap pos_part h,
    ap neg_part h,
  )

module _ {E V' B : Type 0} (label_before : String → String → Bool) (wrap : QueryError → E)
    (into_json : B → Option V') where
  decode_rows-ok :
      (q : Query) (limit : ℤ) (rows : List (RawObject V' B)) (events : List (Event.Object V'))
      → decode_rows wrap into_json (limit_rows (wrap refused) limit rows) ≡ ok events
      → (n : ℕ) × (limit ≡ pos n) × (from_rows into_json (take_first n rows) ≡ ok events)
  decode_rows-ok q (pos n) rows events h = (n, refl, from_decoded-ok wrap _ h)
  decode_rows-ok q (negsuc n) rows events h = cc

  pub execute-Returns :
      (P : Tables V' B → Type 0) (q : Query)
      → Returns P
          (execute label_before wrap into_json q)
          (λ events t. P t × Selects label_before into_json q t.events events)
  unfolding execute
  execute-Returns P q w s events s' p e =
      let (p', h) = read-Returns wrap P _ w s events s' p e in
      (p', decode_rows-ok q q.limit _ events h)

module _ {E V' B : Type 0} (label_before : String → String → Bool) (wrap : QueryError → E) where
  pub total_count-Returns :
      (P : Tables V' B → Type 0) (q : Query)
      → Returns P
          (total_count {B = B} label_before wrap q)
          (λ n t. P t × (pos (length (counted_rows label_before q t.events)) ≡ n))
  unfolding total_count
  total_count-Returns P q w s n s' p e =
      let (p', h) =
        read-Returns wrap P (λ t. ok (pos (length (counted_rows label_before q t.events)))) w s n s'
          p e in
      (p', ok_value h)
