-- ===== src/CommitEdition/Call/Copies.antt =====
-- What a commit adds to the tables, and the segments that it answers (`call` of
-- `src/app/operations/commit_edition.rs`).
use event.Base.{◌≡◌, sym, ◌∙◌, ap, subst, ℕ, ℤ, Option, List, map, Result, ok, err}
use event.Base.Json.{Json}
use event.Db.{Uuid}
use event.Ranges.{Range}
use event.Db.Queries.{refused}
use event.Db.Adjustment.{Segments}
use event.Db.Room
use event.Db.Session.{Tables, Session, World}
use event.Db.Session.Laws.{lift-ok, atomically-ok, >>=-ok}
use event.Db.Queries.Laws.{events_of-ok, changes_of-ok}
use event.CommitEdition.CollectGaps.{GapsError, collect_gaps}
use event.Db.Event
use event.Db.Queries.{events_of, changes_of}
use event.Db.Change.Queries.{list_changes}
use event.Db.Event.Queries.{list_events}
use event.Db.Session.{lift}
use event.AdjustRoom.Call.{in_milliseconds, stream_events}
use event.CommitEdition.Call.{
  room_duration, stream_changes, wrap_gaps, call, in_transaction, query_failed,
}
use event.AdjustRoom.Invert.{invert_segments}
use event.CommitEdition.Call.Steps.{IsCopyOf, HasRoom, copy_room-ok}

module _ {V' B : Type 0} ⦃j : Json V'⦄ (into_json : B → Option V') where
  wrap_gaps-ok : {A : Type 0} (r : Result GapsError A) {a : A} → wrap_gaps r ≡ ok a → r ≡ ok a
  wrap_gaps-ok (ok a) h = cc
  wrap_gaps-ok (err e) h = cc

  -- The segments are those between the gaps of the cut events and cut changes of the tables.
  abbrev pub AreSegments : ℕ → Room.Object V' → Uuid → Tables V' B → Segments → Type 0
  AreSegments min_segment_length source edition_id t segments =
      (duration : ℤ) × (cut_events : List (Event.Object V')) × (gaps : List Range) × (room_duration
          source
        ≡ ok duration)
      × (list_events into_json (stream_events source.id) t.events ≡ ok cut_events)
      × (collect_gaps cut_events (list_changes (stream_changes edition_id) t.changes) ≡ ok gaps)
      × (map in_milliseconds (invert_segments gaps duration min_segment_length) ≡ segments)

  in_transaction-ok :
      (min_segment_length : ℕ) (source : Room.Object V') (edition_id : Uuid) (offset : ℤ)
      (w : World) (s s' : Session V' B) (room : Room.Object V') (segments : Segments)
      → in_transaction into_json min_segment_length source edition_id offset w s
        ≡ (ok (room, segments), s')
      → IsCopyOf source room
        × HasRoom s.tables s'.tables room
        × AreSegments min_segment_length source edition_id s.tables segments
  unfolding in_transaction
  in_transaction-ok min_segment_length source edition_id offset w s s' room segments h =
      let (duration, s1, e1, h1) = >>=-ok (lift (room_duration source)) _ w s h in
      let (cut_events, s2, e2, h2) =
        >>=-ok (events_of query_failed into_json (stream_events source.id)) _ w s1 h1 in
      let (cut_changes, s3, e3, h3) =
        >>=-ok (changes_of query_failed (stream_changes edition_id)) _ w s2 h2 in
      let (gaps, s4, e4, h4) =
        >>=-ok (lift (wrap_gaps (collect_gaps cut_events cut_changes))) _ w s3 h3 in
      let (copied, has, result) =
        copy_room-ok min_segment_length source edition_id offset duration gaps w s4 s' room segments
          h4 in
      let (d, k1) = lift-ok (room_duration source) w s s1 e1 in
      let (v, k2) = events_of-ok query_failed into_json (stream_events source.id) w s1 s2 e2 in
      let (c, k3) = changes_of-ok query_failed (stream_changes edition_id) w s2 s3 e3 in
      let (g, k4) = lift-ok (wrap_gaps (collect_gaps cut_events cut_changes)) w s3 s4 e4 in
      (
        copied,
        subst (λ t. HasRoom t s'.tables room) (sym (k1 ∙ k2 ∙ k3 ∙ k4)) has,
        (
          duration,
          cut_events,
          gaps,
          d,
          ap (λ t. list_events into_json (stream_events source.id) t.events) k1 ∙ v,
          ap (collect_gaps cut_events)
                (ap (λ t. list_changes (stream_changes edition_id) t.changes) (k1 ∙ k2) ∙ c)
              ∙ wrap_gaps-ok (collect_gaps cut_events cut_changes) g,
          result,
        ),
      )

  -- A commit that goes through adds one room, a copy of the source that is derived from it, and
  -- leaves changes, adjustments and the events of all other rooms; the new room holds no stream
  -- events, and the segments that are returned, in milliseconds, lie between the gaps of the
  -- source's cut events and of the changes that the edition lists first.
  pub call-HasRoom :
      (min_segment_length : ℕ) (source : Room.Object V') (edition_id : Uuid) (offset : ℤ)
      (w : World) (s s' : Session V' B) (room : Room.Object V') (segments : Segments)
      → call into_json min_segment_length source edition_id offset w s ≡ (ok (room, segments), s')
      → IsCopyOf source room
        × HasRoom s.tables s'.tables room
        × AreSegments min_segment_length source edition_id s.tables segments
  unfolding call
  call-HasRoom min_segment_length source edition_id offset w s s' room segments h =
      let (t, t', before, e, after) = atomically-ok (query_failed refused) _ w s h in
      let (copied, has, result) =
        in_transaction-ok min_segment_length source edition_id offset w t t' room segments e in
      (
        copied,
        subst (λ x. HasRoom x s'.tables room) (sym before)
            (subst (λ x. HasRoom t.tables x room) after has),
        subst (λ x. AreSegments min_segment_length source edition_id x segments) (sym before)
            result,
      )
