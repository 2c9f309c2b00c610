-- ===== src/AdjustRoom/CloneEvents/Numbering.antt =====
-- The numbering of rows that share a time (the window function in the query of `clone_events`
-- in `src/app/operations/adjust_room.rs`).
use event.Base.{
  ℕ, ◌≤◌, ◌<◌, ℤ, pos, ◌≤ℤ◌, ◌<ℤ◌, ◌≡◌, refl, true, false, List, [], ◌∷◌, All, arith, +ℤ_parts,
  str_eq, ltb_ℤ, eq_of_parts, Bool-cases, inl, inr, some, ok, >>=-eq-ok, ap,
}
use event.Base.Word.{fits_i64}
use mathlib.Core.List.{Perm}
use mathlib.Core.List.Perm
use event.Db.{Uuid}
use event.Db.Event
use event.Ranges.{Range}
use event.AdjustRoom.CloneEvents.{
  placed, monotonize, shifted_rows, clone_events, Row, same_partition, count_partition, number_rows,
  numbered_time, insert_by_created, sort_by_created,
}

module _ {W : Type 0} where
  -- Rows of one partition have the same companions.
  same_partition_trans :
      (p r q : Row W) → same_partition r q ≡ true → same_partition p r ≡ same_partition p q
  same_partition_trans p r q h = ground (arith, eq_of_parts r.occurred_at q.occurred_at)

  count_partition_same :
      (r q : Row W) (ps : List (Row W))
      → same_partition r q ≡ true
      → count_partition r ps ≡ count_partition q ps
  count_partition_same r q [] h = refl
  count_partition_same r q (p ∷ ps) h =
      rw (same_partition_trans p r q h, count_partition_same r q ps h)

  -- In order of creation from a moment on.
  abbrev CreatedFrom : ℤ → List (Row W) → Type 0
  CreatedFrom lo [] = Unit
  CreatedFrom lo (r ∷ rs) = (lo ≤ℤ r.created_at) × CreatedFrom r.created_at rs

  abbrev CreatedInOrder : List (Row W) → Type 0
  CreatedInOrder [] = Unit
  CreatedInOrder (r ∷ rs) = CreatedFrom r.created_at rs

  CreatedFrom-InOrder : (lo : ℤ) (rs : List (Row W)) → CreatedFrom lo rs → CreatedInOrder rs
  CreatedFrom-InOrder lo [] h = tt
  CreatedFrom-InOrder lo (r ∷ rs) h = h.1

  insert_by_created-from :
      (lo : ℤ) (r : Row W) (rs : List (Row W))
      → lo ≤ℤ r.created_at
      → CreatedFrom lo rs
      → CreatedFrom lo (insert_by_created r rs)
  unfolding insert_by_created
  insert_by_created-from lo r [] l h = (l, tt)
  insert_by_created-from lo r (q ∷ qs) l h =
      ground (arith, insert_by_created-from q.created_at r qs)

  insert_by_created-InOrder :
      (r : Row W) (rs : List (Row W)) → CreatedInOrder rs → CreatedInOrder (insert_by_created r rs)
  unfolding insert_by_created
  insert_by_created-InOrder r [] h = tt
  insert_by_created-InOrder r (q ∷ qs) h = ground (arith, insert_by_created-from q.created_at r qs)

  sort_by_created-InOrder : (rs : List (Row W)) → CreatedInOrder (sort_by_created rs)
  unfolding sort_by_created
  sort_by_created-InOrder [] = tt
  sort_by_created-InOrder (r ∷ rs) =
      insert_by_created-InOrder r (sort_by_created rs) (sort_by_created-InOrder rs)

  insert_by_created-perm : (r : Row W) (rs : List (Row W)) → Perm (insert_by_created r rs) (r ∷ rs)
  unfolding insert_by_created
  insert_by_created-perm r [] = Perm.refl _
  insert_by_created-perm r (q ∷ qs) = elim (Bool-cases (ltb_ℤ q.created_at r.created_at)) [
    | inl e ↦ rw e (Perm.trans (Perm.cons q (insert_by_created-perm r qs)) (Perm.swap r q qs))
    | inr e ↦ rw e (Perm.refl _)
  ]

  sort_by_created-perm : (rs : List (Row W)) → Perm (sort_by_created rs) rs
  unfolding sort_by_created
  sort_by_created-perm [] = Perm.refl _
  sort_by_created-perm (r ∷ rs) =
      Perm.trans (insert_by_created-perm r (sort_by_created rs))
        (Perm.cons r (sort_by_created-perm rs))

  -- What the numbering promises of a row and a later one.
  abbrev pub Follows : Row W × ℕ → Row W × ℕ → Type 0
  Follows (r, n) (q, m) =
      (r.created_at ≤ℤ q.created_at)
      × (same_partition r q ≡ true
          → str_eq r.kind "stream" ≡ false
          → numbered_time (r, n) <ℤ numbered_time (q, m))

  abbrev pub IsNumbered : List (Row W × ℕ) → Type 0
  IsNumbered [] = Unit
  IsNumbered (p ∷ ps) = All (Follows p) ps × IsNumbered ps

  Follows_lem :
      (r q : Row W) (n m : ℕ)
      → r.created_at ≤ℤ q.created_at
      → (same_partition r q ≡ true → n < m)
      → Follows (r, n) (q, m)
  Follows_lem r q n m h k = (
    h,
    λ s t. ground (arith, k s, +ℤ_parts r.occurred_at (pos n), +ℤ_parts q.occurred_at (pos m)),
  )

  count_partition-cons :
      (q p : Row W) (ps : List (Row W)) → count_partition q ps ≤ count_partition q (p ∷ ps)
  count_partition-cons q p ps = ground arith

  -- All later rows follow a row that is counted among those before them.
  number_rows-Follows :
      (r : Row W) (n : ℕ) (lo : ℤ) (before rs : List (Row W))
      → r.created_at ≤ℤ lo
      → CreatedFrom lo rs
      → ((q : Row W) → same_partition r q ≡ true → n < count_partition q before)
      → All (Follows (r, n)) (number_rows before rs)
  unfolding number_rows
  number_rows-Follows r n lo before [] l h k = tt
  number_rows-Follows r n lo before (q ∷ rs) l h k = (
    Follows_lem r q n (count_partition q before) (omega arith) (k q),
    number_rows-Follows r n q.created_at (q ∷ before) rs (omega arith) h.1
        (λ q' s. omega (arith, k q' s, count_partition-cons q' q before)),
  )

  number_rows-IsNumbered :
      (before rs : List (Row W)) → CreatedInOrder rs → IsNumbered (number_rows before rs)
  unfolding number_rows
  number_rows-IsNumbered before [] h = tt
  number_rows-IsNumbered before (r ∷ rs) h = (
    number_rows-Follows r (count_partition r before) r.created_at (r ∷ before) rs (omega arith) h
        (λ q s. ground (arith, count_partition_same r q before s)),
    number_rows-IsNumbered (r ∷ before) rs (CreatedFrom-InOrder r.created_at rs h),
  )

  abbrev pub rows_of : List (Row W × ℕ) → List (Row W)
  rows_of [] = []
  rows_of ((r, n) ∷ ps) = r ∷ rows_of ps

  abbrev pub placed_all : List (Row W × ℕ) → List (Row W)
  placed_all [] = []
  placed_all (p ∷ ps) = placed p ∷ placed_all ps

  rows_of-number_rows : (before rs : List (Row W)) → rows_of (number_rows before rs) ≡ rs
  unfolding number_rows
  rows_of-number_rows before [] = refl
  rows_of-number_rows before (r ∷ rs) = ap (λ qs. r ∷ qs) (rows_of-number_rows (r ∷ before) rs)

  monotonize_lem :
      (ps : List (Row W × ℕ)) {out : List (Row W)} → monotonize ps ≡ ok out → out ≡ placed_all ps
  unfolding monotonize
  monotonize_lem [] e = cc
  monotonize_lem ((r, n) ∷ ps) {out} e = elim (Bool-cases (fits_i64 (numbered_time (r, n)))) [
    | inl f ↦
        let e' =
          >>=-eq-ok (monotonize ps) (λ rest. ok (placed (r, n) ∷ rest)) {b = out}
            (rw (f, monotonize) at e) in
        cc (monotonize_lem ps e'.1, e'.2)
    | inr f ↦ cc (rw (f, monotonize) at e)
  ]

  -- The rows that are inserted are the shifted events of the source room, none lost and none
  -- added, placed at their shifted times plus numbers. Of two that are no cut events and share a
  -- shifted time, the one created later is placed later.
  pub clone_events_placed :
      (room_id source : Uuid) (events : List (Event.Object W)) (gaps : List Range) (offset : ℤ)
      (out : List (Row W))
      → clone_events room_id (some source) events gaps offset ≡ ok out
      → (rows : List (Row W)) × (ps : List (Row W × ℕ)) × (shifted_rows room_id gaps offset source
            events
          ≡ ok rows)
        × Perm (rows_of ps) rows
        × IsNumbered ps
        × (out ≡ placed_all ps)
  unfolding clone_events
  clone_events_placed room_id source events gaps offset out e =
      let (rows, s, m) = >>=-eq-ok (shifted_rows room_id gaps offset source events) _ e in
      let sorted : List (Row W) = sort_by_created rows in
      let ps : List (Row W × ℕ) = number_rows [] sorted in
      (
        rows,
        ps,
        s,
        rw (rows_of-number_rows [] sorted) (sort_by_created-perm rows),
        number_rows-IsNumbered [] sorted (sort_by_created-InOrder rows),
        monotonize_lem ps m,
      )
