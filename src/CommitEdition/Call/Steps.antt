-- ===== src/CommitEdition/Call/Steps.antt =====
-- What the steps of a commit make of the tables (`call` of `src/app/operations/commit_edition.rs`).
use event.Base.{
  ◌≡◌, pos, ◌*ℤ◌, refl, sym, ◌∙◌, ap, subst, ℕ, ℤ, some, List, [], ◌∷◌, ◌++◌, map, Result, ok, err,
  All, >>=-eq-ok, arith,
}
use event.Db.{Uuid}
use event.RoomTime.{DateTime, RoomTime, TimeError, try_from}
use event.RoomTime.Update.{try_from_iff}
use event.Ranges.{Range}
use event.Db.Change
use event.Db.Event.Raw.{RawObject}
use event.Db.Event.Stored.{store_rows}
use event.Db.Queries.{refused, delete_kind}
use event.CommitEdition.CloneEvents.{clone_events}
use event.Db.Adjustment.{Segments}
use event.Db.Room
use event.Db.Room.Queries as RoomQueries
use event.Db.Rows.{select}
use event.Db.Event.Insert.{InsertQuery}
use event.Db.Event.Stored.Elsewhere.{
  IsIn, is_elsewhere, delete_events-elsewhere, store_rows-elsewhere, delete_events-gone,
}
use event.Db.Session.{Tables, Session, World}
use event.Db.Session.Laws.{>>=-ok, statement-ok}
use event.Db.Queries.Laws.{ok_value, insert_room-ok, delete_kind-ok}
use event.CommitEdition.CloneEvents.Rows.{SubRow}
use event.CommitEdition.CloneEvents.Insert.{CommitError, NewRow, new_row, new_rows}
use event.AdjustRoom.Call.{nanoseconds_in_millisecond, in_milliseconds}
use event.CommitEdition.Call.{
  CallError, copy_room, columns_of, insert_copy, with_rows, room_query, query_failed, clone_room,
  clone_statement, clone_gaps,
}
use event.Base.Word.{wrap_i64}
use event.AdjustRoom.Invert.{invert_segments}
use event.Db.Event.Queries.{is_deleted_by, delete_events}

module _ {V' B : Type 0} where
  new_row-room_id :
      (destination_id : Uuid) (offset : ℤ) (r : SubRow V' B) (n : ℕ) (row : NewRow V' B)
      → new_row destination_id offset (r, n) ≡ ok row
      → row.room_id ≡ destination_id
  unfolding new_row
  new_row-room_id destination_id offset r n row h = ground arith

  new_rows-IsIn :
      (destination_id : Uuid) (offset : ℤ) (rs : List (SubRow V' B × ℕ)) (rows : List (NewRow V' B))
      → new_rows destination_id offset rs ≡ ok rows
      → All (IsIn destination_id) (map columns_of rows)
  unfolding new_rows
  new_rows-IsIn destination_id offset [] rows h =
      subst (λ x. All (IsIn destination_id) (map columns_of x)) (ok_value h) tt
  new_rows-IsIn destination_id offset ((r, n) ∷ rs) rows h =
      let (row, first, rest) = >>=-eq-ok (new_row destination_id offset (r, n)) _ h in
      let (later, second, whole) = >>=-eq-ok (new_rows destination_id offset rs) _ rest in
      subst (λ x. All (IsIn destination_id) (map columns_of x)) (ok_value whole)
        (
          new_row-room_id destination_id offset r n row first,
          new_rows-IsIn destination_id offset rs later second,
        )

-- The room is a copy of the other.
abbrev pub IsCopyOf : {V : Type 0} → Room.Object V → Room.Object V → Type 0
IsCopyOf source room =
    (room.source_room_id ≡ some source.id)
    × (room.time ≡ source.time)
    × (room.audience ≡ source.audience)
    × (room.tags ≡ source.tags)
    × (room.classroom_id ≡ source.classroom_id)
    × (room.kind ≡ source.kind)

module _ {V' B : Type 0} where
  clone_events-IsIn :
      (now : DateTime) (source_id destination_id edition_id : Uuid) (events : List (RawObject V' B))
      (changes : List (Change.Object V')) (gaps : List Range) (offset : ℤ)
      (rows : List (NewRow V' B))
      → clone_events now source_id destination_id edition_id events changes gaps offset ≡ ok rows
      → All (IsIn destination_id) (map columns_of rows)
  unfolding clone_events
  clone_events-IsIn now source_id destination_id edition_id events changes gaps offset rows h =
      new_rows-IsIn destination_id offset _ rows h

  insert_copy-ok :
      (source : Room.Object V') (r : Result TimeError RoomTime) (w : World) (s s' : Session V' B)
      (room : Room.Object V')
      → try_from source.time ≡ r
      → insert_copy source r w s ≡ (ok room, s')
      → IsCopyOf source room × (record s.tables { rooms = s.tables.rooms ++ room ∷ [] } ≡ s'.tables)
  unfolding RoomQueries.inserted_room RoomQueries.new_query
  insert_copy-ok source (err e) w s s' room t h = cc
  insert_copy-ok source (ok time) w s s' room t h =
      let (same, tables) = insert_room-ok query_failed (room_query source time) w s s' h in
      let kept = ((try_from_iff source.time time).0 t).1 in
      (subst (IsCopyOf source) same (refl, kept, refl, refl, refl, refl), tables)

  with_rows-ok :
      (ids : ℕ → Uuid) (now : DateTime) (t t' : Tables V' B)
      (r : Result {0} CommitError (List (NewRow V' B)))
      → with_rows ids now t r ≡ ok (tt, t')
      → (rows : List (NewRow V' B)) × (r ≡ ok rows)
        × (record t { events = store_rows ids 0 now t.events (map columns_of rows) } ≡ t')
  with_rows-ok ids now t t' (ok rows) h = (rows, refl, cc)
  with_rows-ok ids now t t' (err e) h = cc

module _ {V' B : Type 0} where
  -- The tables have the room as a new one, which holds no stream events, and what else they had.
  abbrev pub HasRoom : Tables V' B → Tables V' B → Room.Object V' → Type 0
  HasRoom t t' room =
      (t'.rooms ≡ t.rooms ++ room ∷ [])
      × (t'.changes ≡ t.changes)
      × (t'.adjustments ≡ t.adjustments)
      × (select (is_elsewhere room.id) t'.events ≡ select (is_elsewhere room.id) t.events)
      × (select (is_deleted_by room.id "stream") t'.events ≡ [])

  HasRoom-steps :
      (t t1 t2 t3 : Tables V' B) (room : Room.Object V') (ids : ℕ → Uuid) (now : DateTime)
      (qs : List (InsertQuery V' B))
      → record t { rooms = t.rooms ++ room ∷ [] } ≡ t1
      → record t1 { events = store_rows ids 0 now t1.events qs } ≡ t2
      → record t2 { events = delete_events room.id "stream" t2.events } ≡ t3
      → All (IsIn room.id) qs
      → HasRoom t t3 room
  HasRoom-steps t t1 t2 t3 room ids now qs e1 e2 e3 h = (
    sym (ap (λ x. x.rooms) e1 ∙ ap (λ x. x.rooms) e2 ∙ ap (λ x. x.rooms) e3),
    sym (ap (λ x. x.changes) e1 ∙ ap (λ x. x.changes) e2 ∙ ap (λ x. x.changes) e3),
    sym (ap (λ x. x.adjustments) e1 ∙ ap (λ x. x.adjustments) e2 ∙ ap (λ x. x.adjustments) e3),
    sym (ap (λ x. select (is_elsewhere room.id) x.events) e3)
        ∙ delete_events-elsewhere room.id "stream" t2.events
        ∙ sym (ap (λ x. select (is_elsewhere room.id) x.events) e2)
        ∙ store_rows-elsewhere room.id ids 0 now t1.events qs h
        ∙ sym (ap (λ x. select (is_elsewhere room.id) x.events) e1),
    sym (ap (λ x. select (is_deleted_by room.id "stream") x.events) e3)
        ∙ delete_events-gone room.id "stream" t2.events,
  )

  clone_gaps-ok :
      (source_id destination_id edition_id : Uuid) (gaps : List Range) (offset : ℤ) (w : World)
      (s s' : Session V' B)
      → clone_gaps source_id destination_id edition_id gaps offset w s ≡ (ok tt, s')
      → (qs : List (InsertQuery V' B)) × All (IsIn destination_id) qs
        × (record s.tables {
          events = store_rows (w.id s.count) 0 (w.now s.count) s.tables.events qs;
        }
            ≡ s'.tables)
  unfolding clone_gaps clone_statement
  clone_gaps-ok source_id destination_id edition_id gaps offset w s s' h =
      let (rows, e, t) = with_rows-ok (w.id s.count) (w.now s.count) s.tables s'.tables _ (
        statement-ok (query_failed refused)
          (clone_statement source_id destination_id edition_id gaps offset) w s h) in
      (
        map columns_of rows,
        clone_events-IsIn (w.now s.count) source_id destination_id edition_id s.tables.events
            s.tables.changes gaps offset rows e,
        t,
      )

  done-ok :
      (room r : Room.Object V') (segments g : Segments) (w : World) (s s' : Session V' B)
      → ◌≡◌ {A = Result CallError (Room.Object V' × Segments) × Session V' B}
          (ok (room, segments), s)
          (ok (r, g), s')
      → (room ≡ r) × (segments ≡ g) × (s.tables ≡ s'.tables)
  done-ok room r segments g w s s' h = (cc, cc, cc)

  clone_room-ok :
      (source : Room.Object V') (w : World) (s s' : Session V' B) (room : Room.Object V')
      → clone_room source w s ≡ (ok room, s')
      → IsCopyOf source room × (record s.tables { rooms = s.tables.rooms ++ room ∷ [] } ≡ s'.tables)
  unfolding clone_room
  clone_room-ok source w s s' room h =
      insert_copy-ok source (try_from source.time) w s s' room refl h

  -- What the statements that come after the gaps make of the tables.
  pub copy_room-ok :
      (min_segment_length : ℕ) (source : Room.Object V') (edition_id : Uuid) (offset duration : ℤ)
      (cut_gaps : List Range) (w : World) (s s' : Session V' B) (room : Room.Object V')
      (segments : Segments)
      → copy_room min_segment_length source edition_id offset duration cut_gaps w s
        ≡ (ok (room, segments), s')
      → IsCopyOf source room
        × HasRoom s.tables s'.tables room
        × (map in_milliseconds (invert_segments cut_gaps duration min_segment_length) ≡ segments)
  unfolding copy_room
  copy_room-ok min_segment_length source edition_id offset duration cut_gaps w s s' room segments
        h =
      let (destination, s1, e1, h1) = >>=-ok (clone_room source) _ w s h in
      let (u, s2, e2, h2) =
        >>=-ok
          (clone_gaps source.id destination.id edition_id cut_gaps
            (wrap_i64 (offset *ℤ pos nanoseconds_in_millisecond)))
          _ w s1 h1 in
      let (v, s3, e3, h3) = >>=-ok (delete_kind query_failed destination.id "stream") _ w s2 h2 in
      let (copied, t1) = clone_room-ok source w s s1 destination e1 in
      let (qs, inside, t2) =
        clone_gaps-ok source.id destination.id edition_id cut_gaps _ w s1 s2 e2 in
      let t3 = delete_kind-ok query_failed destination.id "stream" w s2 s3 e3 in
      let (same, result, kept) = done-ok destination room _ segments w s3 s' h3 in
      (
        subst (IsCopyOf source) same copied,
        subst (HasRoom s.tables s'.tables) same (
            subst (λ t. HasRoom s.tables t destination) kept
              (HasRoom-steps s.tables s1.tables s2.tables s3.tables destination (w.id s1.count)
                (w.now s1.count) qs t1 t2 t3 inside)),
        result,
      )
