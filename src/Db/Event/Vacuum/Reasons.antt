-- ===== src/Db/Event/Vacuum/Reasons.antt =====
-- Why `VacuumQuery` of `src/db/event/mod.rs` deletes an event.
use event.Base.{
  ℕ, ◌≤◌, ◌-ℤ◌, ◌<ℤ◌, ◌==◌, ==_iff, ◌≡◌, refl, ◌∙◌, subst, Bool, true, ◌&&◌, ◌||◌, not, Bool-cases,
  ◌⊎◌, inl, inr, some, str_eq_iff, List, [], ◌∷◌, ◌++◌, All, In, length, arith,
}
use event.Db.Event.Raw.{RawObject}
use event.Db.Event.SetState.{same_partition, is_later}
use event.Db.Event.SetState.Attribute.{text_matches-eq}
use event.Db.Event.SetState.Order.{is_later-IsOrder}
use event.Db.Event.Stored.Earliest.{has_label-eq}
use event.Db.Event.Vacuum.{
  VacuumQuery, whole_seconds, is_vacuumed, sub_rows, is_deep, is_old, is_marked, is_joined, any_row,
  is_doomed, vacuum_events,
}
use event.Db.Room
use event.Db.Rows.{select, rows_ahead}
use event.Db.Rows.Order.{All-and, All-map, All_self, All-select_both, In-select}
use event.Db.Rows.Numbers.{IsNumbered, row_numbers-IsNumbered, All-row_numbers}
use event.RoomTime.{DateTime}

any_row-true :
    {A : Type 0} (P : A → Type 0) (p : A → Bool) (es : List A)
    → All P es
    → any_row p es ≡ true
    → (e : A) × P e × (p e ≡ true)
any_row-true P p [] h k = cc
any_row-true P p (e ∷ es) (h, hs) k = elim (Bool-cases (p e)) [
  | inl b ↦ (e, h, b)
  | inr b ↦ any_row-true P p es hs (ground arith)
]

is_joined-eq :
    {V B : Type 0} (d e : RawObject V B)
    → is_joined d e ≡ true
    → (e.room_id ≡ d.room_id) × (e.set ≡ d.set) × (e.label ≡ d.label)
is_joined-eq d e h =
    ground (arith, ==_iff e.room_id d.room_id, str_eq_iff e.set d.set, has_label-eq e.label d.label)

module _ {V B : Type 0} where
  -- Rows with one id are one row.
  abbrev pub HasIds : List (RawObject V B) → Type 0
  HasIds events = (e d : RawObject V B) → In e events → In d events → e.id ≡ d.id → e ≡ d

  -- The events ahead of this one are those of its label that occurred later, and those of its time
  -- that the table has first.
  abbrev pub IsBehind : ℕ → List (RawObject V B) → RawObject V B → Type 0
  IsBehind n rows e =
      (earlier : List (RawObject V B)) × (later : List (RawObject V B)) × (earlier ++ e ∷ later
        ≡ rows)
      × (n ≤ length (rows_ahead same_partition is_later earlier e later))

  module _ (q : VacuumQuery) (now : DateTime) (rooms : List (Room.Object V))
      (events : List (RawObject V B)) where
    abbrev rows : List (RawObject V B)
    rows = select (is_vacuumed rooms) events

    -- As many events as the history may have are ahead of it.
    abbrev pub IsDeep : RawObject V B → Type 0
    IsDeep e = IsBehind q.max_history_size rows e

    -- An event is ahead of it, and it was created too long ago.
    abbrev pub IsOld : RawObject V B → Type 0
    IsOld e = IsBehind 1 rows e × (e.created_at <ℤ (now -ℤ whole_seconds q.max_history_lifetime))

    -- The latest event of its label has the attribute "deleted" and was created too long ago.
    abbrev pub IsMarked : RawObject V B → Type 0
    IsMarked e =
        (d : RawObject V B) × (earlier : List (RawObject V B)) × (later : List (RawObject V B))
        × (earlier ++ d ∷ later ≡ rows)
        × (length (rows_ahead same_partition is_later earlier d later) ≡ 0)
        × (d.attribute ≡ some "deleted")
        × (d.created_at <ℤ (now -ℤ whole_seconds q.max_deleted_lifetime))
        × (e.room_id ≡ d.room_id)
        × (e.set ≡ d.set)
        × (e.label ≡ d.label)

    -- The numbered rows are rows of the table whose history is not preserved.
    abbrev IsSub : ℕ × RawObject V B → Type 0
    IsSub p =
        IsNumbered is_later-IsOrder same_partition rows p
        × In (p.1) events
        × (is_vacuumed rooms (p.1) ≡ true)

    sub_rows-IsSub : All IsSub (sub_rows rooms events)
    unfolding sub_rows
    sub_rows-IsSub =
        All-map _ IsSub _ (λ p (n, (i, v)). (n, i, v))
          (All-and _ _ _ (row_numbers-IsNumbered is_later-IsOrder same_partition rows) (
            All-row_numbers is_later-IsOrder same_partition
              (λ e. In e events × (is_vacuumed rooms e ≡ true)) [] rows
              (All-select_both _ _ (is_vacuumed rooms) events (λ e h i. (i, h)) (All_self events))))

    -- Why an event is deleted.
    abbrev pub IsReason : RawObject V B → Type 0
    IsReason e = (is_vacuumed rooms e ≡ true) × (IsDeep e ⊎ IsOld e ⊎ IsMarked e)

    deep_or_old :
        (p : ℕ × RawObject V B) → IsSub p → (is_deep q p || is_old q now p) ≡ true → IsReason (p.1)
    deep_or_old (n, d) ((earlier, later, is, number), i, v) h =
        elim (Bool-cases (is_deep q (n, d))) [
          | inl b ↦ (v, inl (earlier, later, is, ground (arith, number)))
          | inr b ↦ (v, inr (inl ((earlier, later, is, ground (arith, number)), ground arith)))
        ]

    is_vacuumed-room :
        (e d : RawObject V B) → e.room_id ≡ d.room_id → is_vacuumed rooms e ≡ is_vacuumed rooms d
    unfolding is_vacuumed
    is_vacuumed-room e d h = rw h refl

    marked :
        (p : ℕ × RawObject V B) (e : RawObject V B)
        → IsSub p
        → is_marked q now p ≡ true
        → is_joined (p.1) e ≡ true
        → IsReason e
    marked (n, d) e ((earlier, later, is, number), i, v) h j =
        let joined = is_joined-eq d e j in
        (
          is_vacuumed-room e d joined.0 ∙ v,
          inr (
              inr (
                d,
                earlier,
                later,
                is,
                ground (arith, number, ==_iff n 1),
                text_matches-eq "deleted" d.attribute (ground arith),
                ground arith,
                joined.0,
                joined.1,
                joined.2,
              )),
        )

    doomed :
        (e : RawObject V B)
        → HasIds events
        → In e events
        → is_doomed q now rooms events e ≡ true
        → IsReason e
    unfolding is_doomed
    doomed e ids i h =
        elim (Bool-cases (
          any_row (λ d. (is_deep q d || is_old q now d) && ((d.1).id == e.id))
            (sub_rows rooms events))) [
              | inl b ↦
                  let (p, sub, k) = any_row-true IsSub _ (sub_rows rooms events) sub_rows-IsSub b in
                  subst IsReason (ids (p.1) e sub.1 i (ground (arith, ==_iff (p.1).id e.id)))
                    (deep_or_old p sub (ground arith))
              | inr b ↦
                  let (p, sub, k) =
                    any_row-true IsSub
                      (λ d.
                        is_marked q now d
                        && any_row (λ c. is_joined (d.1) c && (c.id == e.id)) events)
                      (sub_rows rooms events) sub_rows-IsSub (ground arith) in
                  let (c, i', k') =
                    any_row-true (λ c. In c events) (λ c. is_joined (p.1) c && (c.id == e.id))
                      events (All_self events) (ground arith) in
                  subst IsReason (ids c e i' i (ground (arith, ==_iff c.id e.id)))
                    (marked p c sub (ground arith) (ground arith))
            ]

    -- If rows with one id are one row, an event of the table is kept, or its history is not
    -- preserved and it is too deep, too old, or of a label that was deleted too long ago.
    pub vacuum_events-Reasons :
        (e : RawObject V B)
        → HasIds events
        → In e events
        → In e (vacuum_events q now rooms events) ⊎ IsReason e
    unfolding vacuum_events
    vacuum_events-Reasons e ids i = elim (Bool-cases (is_doomed q now rooms events e)) [
      | inl b ↦ inr (doomed e ids i b)
      | inr b ↦ inl (In-select (λ d. not (is_doomed q now rooms events d)) e events i (rw b refl))
    ]
