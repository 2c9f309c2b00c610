-- ===== src/Endpoint/Rooms/Times.antt =====
-- The time of a room that `UpdateHandler` of `src/app/endpoint/room.rs` updates, and what it says
-- of its end.
use event.Base.{
  ◌≡◌, refl, sym, ◌∙◌, ap, subst, ℤ, ◌<ℤ◌, ◌⊎◌, ◌≤ℤ◌, Bool, ◌&&◌, not, Option, none, some,
  Option-cases, inl, inr, List, [], ◌∷◌, Result, ok, err, String, if◌then◌else◌, arith,
}
use event.Db.{Uuid, AccountId}
use event.Db.Room
use event.Db.Room.Queries as RoomQueries
use event.Db.Queries.Laws.{ok_value}
use event.Db.Session.{World, Session}
use event.RoomTime as Time
use event.RoomTime.{DateTime, BoundedDateTimeTuple, try_from, into_tuple}
use event.RoomTime.Update.{NotBefore, update_after_opening}
use event.Endpoint.CreateEvent.{AuthzRequest}
use event.Endpoint.Rooms.{
  UpdatePayload, Response, Notification, Readings, update_query, new_time, updated_or_error,
  valid_or_error, update_notifications, room_notification, audience_events, room_events, ends_by,
}
use event.Endpoint.Rooms.Closing.{ends_by-update}
use event.Endpoint.Rooms.Handlers.{update}
use event.Endpoint.Rooms.Updating.{update-MayUpdate}

-- The time that a request changes the old one to.
abbrev pub ChangesTime :
    DateTime → BoundedDateTimeTuple → BoundedDateTimeTuple → Option BoundedDateTimeTuple → Type 0
ChangesTime now old asked time =
    (self : Time.RoomTime) × (t : Time.RoomTime) × (try_from old ≡ ok self)
    × (Time.update now self asked ≡ some t)
    × (time ≡ some (into_tuple t))

module _ {X : Type 0} where
  valid_or_error-ok :
      (o : Option Time.RoomTime) (time : Option BoundedDateTimeTuple)
      → valid_or_error {X = X} o ≡ ok time
      → (t : Time.RoomTime) × (o ≡ some t) × (time ≡ some (into_tuple t))
  valid_or_error-ok none time h = cc
  valid_or_error-ok (some t) time h = (t, refl, sym (ok_value h))

  updated_or_error-ok :
      (now : DateTime) (asked old : BoundedDateTimeTuple)
      (r : Result {0} Time.TimeError Time.RoomTime) (time : Option BoundedDateTimeTuple)
      → updated_or_error {X = X} now asked r ≡ ok time
      → try_from old ≡ r
      → ChangesTime now old asked time
  updated_or_error-ok now asked old (ok self) time h e =
      let (t, u, v) = valid_or_error-ok _ time h in (self, t, e, u, v)
  updated_or_error-ok now asked old (err x) time h e = cc

  new_time-some :
      (now : DateTime) (old asked : BoundedDateTimeTuple) (time : Option BoundedDateTimeTuple)
      → new_time {X = X} now old (some asked) ≡ ok time
      → ChangesTime now old asked time
  unfolding new_time
  new_time-some now old asked time h = updated_or_error-ok now asked old (try_from old) time h refl

  new_time-none :
      (now : DateTime) (old : BoundedDateTimeTuple) (time : Option BoundedDateTimeTuple)
      → new_time {X = X} now old none ≡ ok time
      → time ≡ none
  unfolding new_time
  new_time-none now old time h = sym (ok_value h)

updated-time :
    {V' : Type 0} (payload : UpdatePayload V') (old : Room.Object V') (time : BoundedDateTimeTuple)
    (t : Option BoundedDateTimeTuple)
    → t ≡ some time
    → (RoomQueries.updated_room (update_query old.id t payload) old).time ≡ time
unfolding RoomQueries.updated_room update_query RoomQueries.update_of
updated-time {V'} payload old time t h = rw h refl

kept-time :
    {V' : Type 0} (payload : UpdatePayload V') (old : Room.Object V')
    (t : Option BoundedDateTimeTuple)
    → t ≡ none
    → (RoomQueries.updated_room (update_query old.id t payload) old).time ≡ old.time
unfolding RoomQueries.updated_room update_query RoomQueries.update_of
kept-time {V'} payload old t h = rw h refl

-- The notifications of an update: of the room, and of its end.
abbrev pub notifications_of :
    {V' : Type 0} → (Uuid → String) → Room.Object V' → Bool → List (Notification V')
notifications_of to_string room is_end =
    room_notification "room.update" (audience_events room.audience) room
    ∷ (if is_end
        then room_notification "room.close" (room_events to_string room.id) room ∷ []
        else [])

ℤ-cases : (a b : ℤ) → (a <ℤ b) ⊎ (b ≤ℤ a)
ℤ-cases a b = ground arith

-- An opened room keeps its opening, and does not end before the update.
opened-time :
    (now : DateTime) (self t : Time.RoomTime) (asked : BoundedDateTimeTuple)
    → Time.update now self asked ≡ some t
    → self.start ≤ℤ now
    → (t.start ≡ self.start) × NotBefore now t.end
unfolding Time.update
opened-time now self t asked u le = elim (Option-cases (Time.new asked)) [
  | inl e ↦ cc (rw (Time.update, e) at u)
  | inr (a, e) ↦
      let (start, end, _) = update_after_opening now self asked a t le e u in (start, end)
]

opened_or_not :
    (now : DateTime) (self t : Time.RoomTime) (asked : BoundedDateTimeTuple)
    → Time.update now self asked ≡ some t
    → (now <ℤ self.start) ⊎ ((t.start ≡ self.start) × NotBefore now t.end)
opened_or_not now self t asked u = elim (ℤ-cases now self.start) [
  | inl h ↦ inl h
  | inr h ↦ inr (opened-time now self t asked u h)
]

module _ {X V' B : Type 0} (to_string : Uuid → String)
    (authorize : AuthzRequest → Result {0} X Unit) where
  -- If an update that asks for a time goes through and the clock does not run back, the subscribers
  -- of the room are told that it was closed exactly when it was not closed before and the time of
  -- the updated room has passed.
  pub update-notifies :
      (readings : Readings) (id : Uuid) (payload : UpdatePayload V') (account_id : AccountId)
      (asked : BoundedDateTimeTuple) (w : World) (s s' : Session V' B) (r : Response V')
      → payload.time ≡ some asked
      → readings.updated_at ≤ℤ readings.ended_at
      → update to_string authorize readings id payload account_id w s ≡ (ok r, s')
      → (old : Room.Object V') × (RoomQueries.find_room id s.tables.rooms ≡ some old)
        × (r.notifications
            ≡ notifications_of to_string r.body (
                not (Room.is_closed readings.checked_at old.time)
                && Room.is_closed readings.ended_at r.body.time))
  unfolding update_notifications
  update-notifies readings id payload account_id asked w s s' r h le e =
      let (old, (found, _, _), (time, n, same, _, is)) =
        update-MayUpdate to_string authorize readings id payload account_id w s s' r e in
      let (self, t, _, u, v) =
        new_time-some readings.updated_at old.time asked time
          (subst (λ o. new_time {X = X} readings.updated_at old.time o ≡ ok time) h n) in
      let at = ap (λ x. x.time) (sym same) ∙ updated-time payload old (into_tuple t) time v in
      (
        old,
        found,
        ap (λ x. x.notifications) (sym is)
            ∙ ap
                (λ b.
                  notifications_of to_string r.body
                    (not (Room.is_closed readings.checked_at old.time) && b))
                (ap (ends_by readings.ended_at) h
                  ∙ ends_by-update readings.updated_at readings.ended_at self t asked u le
                  ∙ ap (Room.is_closed readings.ended_at) (sym at)),
      )

  -- If an update that asks for a time goes through, the time of the updated room is what
  -- `RoomTime::update` makes of the old one; a room that has opened by then keeps its opening and does
  -- not end before the moment of the update.
  pub update-time :
      (readings : Readings) (id : Uuid) (payload : UpdatePayload V') (account_id : AccountId)
      (asked : BoundedDateTimeTuple) (w : World) (s s' : Session V' B) (r : Response V')
      → payload.time ≡ some asked
      → update to_string authorize readings id payload account_id w s ≡ (ok r, s')
      → (old : Room.Object V') × (RoomQueries.find_room id s.tables.rooms ≡ some old)
        × ((self : Time.RoomTime) × (t : Time.RoomTime) × (try_from old.time ≡ ok self)
            × (Time.update readings.updated_at self asked ≡ some t)
            × (r.body.time ≡ into_tuple t)
            × ((readings.updated_at <ℤ self.start)
                ⊎ ((t.start ≡ self.start) × NotBefore readings.updated_at t.end)))
  update-time readings id payload account_id asked w s s' r h e =
      let (old, (found, _, _), (time, n, same, _, is)) =
        update-MayUpdate to_string authorize readings id payload account_id w s s' r e in
      let (self, t, f, u, v) =
        new_time-some readings.updated_at old.time asked time
          (subst (λ o. new_time {X = X} readings.updated_at old.time o ≡ ok time) h n) in
      (
        old,
        found,
        (
          self,
          t,
          f,
          u,
          ap (λ x. x.time) (sym same) ∙ updated-time payload old (into_tuple t) time v,
          opened_or_not readings.updated_at self t asked u,
        ),
      )

  -- If an update that asks for no time goes through, the room keeps its time.
  pub update-kept_time :
      (readings : Readings) (id : Uuid) (payload : UpdatePayload V') (account_id : AccountId)
      (w : World) (s s' : Session V' B) (r : Response V')
      → payload.time ≡ none
      → update to_string authorize readings id payload account_id w s ≡ (ok r, s')
      → (old : Room.Object V') × (RoomQueries.find_room id s.tables.rooms ≡ some old)
        × (r.body.time ≡ old.time)
  update-kept_time readings id payload account_id w s s' r h e =
      let (old, (found, _, _), (time, n, same, _, is)) =
        update-MayUpdate to_string authorize readings id payload account_id w s s' r e in
      (
        old,
        found,
        ap (λ x. x.time) (sym same)
            ∙ kept-time payload old time (
                new_time-none readings.updated_at old.time time
                  (subst (λ o. new_time {X = X} readings.updated_at old.time o ≡ ok time) h n)),
      )
