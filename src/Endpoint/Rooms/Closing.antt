-- ===== src/Endpoint/Rooms/Closing.antt =====
-- When `UpdateHandler` of `src/app/endpoint/room.rs` says that a room was closed.
use event.Base.{◌≤ℤ◌, ◌≡◌, refl, sym, ◌∙◌, ap, some, Option-cases, inl, inr, arith}
use event.Db.Room
use event.RoomTime.{
  DateTime, Bound, BoundedDateTimeTuple, RoomTime, new, update, update_to, into_tuple, into_bound,
}
use event.RoomTime.Update.{update-some}
use event.Endpoint.Rooms.{ends_by}

closed_as_asked :
    (now ended : DateTime) (time asked r : RoomTime)
    → update_to now time asked ≡ some r
    → now ≤ℤ ended
    → Room.is_closed ended (into_tuple asked) ≡ Room.is_closed ended (into_tuple r)
unfolding update_to into_tuple Room.is_closed into_bound
closed_as_asked now ended time asked r h le = ground arith

-- An update to new bounds.
new-into_tuple :
    (asked : BoundedDateTimeTuple) (a : RoomTime) → new asked ≡ some a → into_tuple a ≡ asked
unfolding new into_tuple into_bound
new-into_tuple (Bound.included s, Bound.excluded e) a h = ground arith
new-into_tuple (Bound.included s, Bound.included e) a h = ground arith
new-into_tuple (Bound.included s, Bound.unbounded) a h = ground arith
new-into_tuple (Bound.excluded s, _) a h = ground arith
new-into_tuple (Bound.unbounded, _) a h = ground arith

ends_by-is_closed :
    (ended : DateTime) (asked : BoundedDateTimeTuple)
    → ends_by ended (some asked) ≡ Room.is_closed ended asked
unfolding ends_by Room.is_closed
ends_by-is_closed ended (_, Bound.included t) = refl
ends_by-is_closed ended (_, Bound.excluded t) = refl
ends_by-is_closed ended (_, Bound.unbounded) = refl

-- If an update goes through and the clock does not run back, the end that was asked for has passed
-- exactly when the updated time has.
pub ends_by-update :
    (now ended : DateTime) (time t : RoomTime) (asked : BoundedDateTimeTuple)
    → update now time asked ≡ some t
    → now ≤ℤ ended
    → ends_by ended (some asked) ≡ Room.is_closed ended (into_tuple t)
unfolding update
ends_by-update now ended time t asked h le = elim (Option-cases (new asked)) [
  | inl e ↦ cc (rw (update, e) at h)
  | inr (a, e) ↦
      ends_by-is_closed ended asked
      ∙ ap (Room.is_closed ended) (sym (new-into_tuple asked a e))
      ∙ closed_as_asked now ended time a t (sym (update-some now time asked e) ∙ h) le
]
