-- ===== src/RoomTime/Update.antt =====
-- What an update of a room's time keeps and what it may change (`src/db/room_time.rs`).
use event.Base.{
  ◌≡◌, refl, true, false, none, some, ok, ◌<ℤ◌, ◌≤ℤ◌, ◌↔◌, ◌≢◌, ◌⊎◌, inl, inr, Option-cases, sym,
  ◌∙◌, eq_of_parts, arith,
}
use event.RoomTime.{
  DateTime, Bound, BoundedDateTimeTuple, RoomTimeBound, RoomTime, new, update, update_to,
  into_tuple, try_from, has_ended,
}

-- An interval that is not empty.
abbrev pub IsInterval : DateTime → RoomTimeBound → Type 0
IsInterval s (RoomTimeBound.excluded e) = s <ℤ e
IsInterval s RoomTimeBound.unbounded = Unit

abbrev pub IsValid : RoomTime → Type 0
IsValid t = IsInterval t.start t.end

new-IsValid : (t : BoundedDateTimeTuple) {r : RoomTime} → new t ≡ some r → IsValid r
unfolding new
new-IsValid (Bound.included s, Bound.excluded e) h = ground arith
new-IsValid (Bound.included s, Bound.included e) h = ground arith
new-IsValid (Bound.included s, Bound.unbounded) h = ground arith
new-IsValid (Bound.excluded s, _) h = ground arith
new-IsValid (Bound.unbounded, _) h = ground arith

-- A pair of bounds is accepted exactly when it is the pair of a valid time, which is the result.
pub try_from_iff :
    (t : BoundedDateTimeTuple) (r : RoomTime)
    → (try_from t ≡ ok r) ↔ (IsValid r × (into_tuple r ≡ t))
unfolding try_from into_tuple
try_from_iff (Bound.included s, Bound.excluded e) r = ground arith
try_from_iff (Bound.included s, Bound.included e) r = ground arith
try_from_iff (Bound.included s, Bound.unbounded) r = ground arith
try_from_iff (Bound.excluded s, _) r = ground arith
try_from_iff (Bound.unbounded, _) r = ground arith

-- The end is unbounded, or not before the moment.
abbrev pub NotBefore : DateTime → RoomTimeBound → Type 0
NotBefore now (RoomTimeBound.excluded e) = now ≤ℤ e
NotBefore now RoomTimeBound.unbounded = Unit

-- An update is refused exactly when the bounds asked for are no room time, or the room has
-- opened and its end has passed.
pub update-none_iff :
    (now : DateTime) (self : RoomTime) (t : BoundedDateTimeTuple)
    → (update now self t ≡ none)
      ↔ ((new t ≡ none) ⊎ (self.start ≤ℤ now) × (has_ended now self.end ≡ true))
unfolding update
update-none_iff now self t = elim (Option-cases (new t)) [
  | inl e ↦ rw (e, update) (ground arith)
  | inr (r, e) ↦ rw (e, update) (ground arith)
]

pub update-some :
    (now : DateTime) (self : RoomTime) (t : BoundedDateTimeTuple) {asked : RoomTime}
    → new t ≡ some asked
    → update now self t ≡ update_to now self asked
unfolding update
update-some now self t e = rw (e, update)

update_to-IsValid :
    (now : DateTime) (self asked r : RoomTime)
    → self.start ≢ now
    → IsValid asked
    → update_to now self asked ≡ some r
    → IsValid r
unfolding update_to
update_to-IsValid now self asked r ne v u = ground (arith, eq_of_parts self.start now)

-- Before its opening a room moves to the bounds that were asked for.
pub update_before_opening :
    (now : DateTime) (self : RoomTime) (t : BoundedDateTimeTuple)
    → now <ℤ self.start
    → update now self t ≡ new t
unfolding update
update_before_opening now self t h = elim (Option-cases (new t)) [
  | inl e ↦ rw (e, update) refl
  | inr (r, e) ↦ rw (e, update) (ground arith)
]

-- Once the room has opened, an update that goes through keeps the opening, never ends the room
-- before the present moment, and keeps an end that was asked for and lies ahead.
pub update_after_opening :
    (now : DateTime) (self : RoomTime) (t : BoundedDateTimeTuple) (asked r : RoomTime)
    → self.start ≤ℤ now
    → new t ≡ some asked
    → update now self t ≡ some r
    → (r.start ≡ self.start) × NotBefore now r.end × (NotBefore now asked.end → r.end ≡ asked.end)
unfolding update_to
update_after_opening now self t asked r h e u = ground (arith, update-some now self t e)

-- The result of an update is a valid time, unless the room opens at the very moment of the
-- update.
pub update-IsValid :
    (now : DateTime) (self : RoomTime) (t : BoundedDateTimeTuple) {r : RoomTime}
    → self.start ≢ now
    → update now self t ≡ some r
    → IsValid r
unfolding update
update-IsValid now self t {r} ne u = elim (Option-cases (new t)) [
  | inl e ↦ cc (rw (e, update) at u)
  | inr (asked, e) ↦
      update_to-IsValid now self asked r ne (new-IsValid t e) (sym (update-some now self t e) ∙ u)
]

-- At the very moment of its opening a room that is asked to end at once gets an empty interval,
-- which `RoomTime::new` itself refuses.
pub update_at_opening :
    (now e : DateTime) (self : RoomTime) (t : BoundedDateTimeTuple) (asked : RoomTime)
    → self.start ≡ now
    → has_ended now self.end ≡ false
    → new t ≡ some asked
    → asked.end ≡ RoomTimeBound.excluded e
    → e ≤ℤ now
    → (r : RoomTime) × (update now self t ≡ some r) × (new (into_tuple r) ≡ none)
unfolding new update_to into_tuple
update_at_opening now e self t asked s o n a le = (
  record { start = now; end = RoomTimeBound.excluded now },
  ground (arith, update-some now self t n),
  ground arith,
)
