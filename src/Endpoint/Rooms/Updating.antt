-- ===== src/Endpoint/Rooms/Updating.antt =====
-- What `UpdateHandler` of `src/app/endpoint/room.rs` does to the room.
use event.Base.{◌≡◌, refl, sym, subst, not, Option, some, Result, ok, String}
use event.Db.{Uuid, AccountId}
use event.Db.Room
use event.Db.Room.Queries as RoomQueries
use event.Db.Queries.{update_room}
use event.Db.Queries.Laws.{ok_value}
use event.Db.Session.{Tables, World, Session, lift}
use event.Db.Session.Returns.{Returns, >>=-Returns, lift-Returns}
use event.RoomTime.{BoundedDateTimeTuple}
use event.Endpoint.CreateEvent.{AuthzRequest}
use event.Endpoint.Helpers.{db_query_failed, find_room, get_conn}
use event.Endpoint.Helpers.Found.{Meets, find_room-Returns, find_room-id, get_conn-Returns}
use event.Endpoint.Rooms.{
  UpdatePayload, Response, Readings, update_query, time_requirement, new_time, update_notifications,
  room_request,
}
use event.Endpoint.Rooms.Changed.{
  IsUpdated-holds, update_room-Returns, IsUpdated-found, allowed-Returns,
}
use event.Endpoint.Rooms.Handlers.{allowed, update, update_authorized}

module _ {X V' B : Type 0} (to_string : Uuid → String)
    (authorize : AuthzRequest → Result {0} X Unit) where
  -- The room is in the tables, its time may be changed, and the account may update it.
  abbrev pub MayUpdate :
      Readings → Uuid → UpdatePayload V' → AccountId → Tables V' B → Room.Object V' → Type 0
  MayUpdate readings id payload account_id t old =
      (RoomQueries.find_room id t.rooms ≡ some old)
      × Meets (time_requirement payload.time) readings.found_at old
      × (authorize (room_request to_string old "update" account_id) ≡ ok tt)

  -- The answer is the updated room, which the tables have.
  abbrev pub AnswersUpdate :
      Readings → Uuid → UpdatePayload V' → Room.Object V' → Response V' → Tables V' B → Type 0
  AnswersUpdate readings id payload old r t' =
      (time : Option BoundedDateTimeTuple) × (new_time {X = X} readings.updated_at old.time
          payload.time
        ≡ ok time)
      × (RoomQueries.updated_room (update_query old.id time payload) old ≡ r.body)
      × (RoomQueries.find_room id t'.rooms ≡ some r.body)
      × (update_notifications to_string (not (Room.is_closed readings.checked_at old.time))
            readings.ended_at payload.time r.body
          ≡ r)

  update_authorized-Returns :
      (before : Tables V' B) (readings : Readings) (id : Uuid) (payload : UpdatePayload V')
      (old : Room.Object V')
      → RoomQueries.find_room id before.rooms ≡ some old
      → Returns
          (λ t. t ≡ before)
          (update_authorized to_string authorize readings old payload)
          (AnswersUpdate readings id payload old)
  unfolding update_authorized update_query RoomQueries.update_of update_notifications
  update_authorized-Returns before readings id payload old found =
      >>=-Returns _
        (λ time t.
          (t ≡ before) × (new_time {X = X} readings.updated_at old.time payload.time ≡ ok time))
        _ (lift (new_time readings.updated_at old.time payload.time)) _
        (lift-Returns _ _ (new_time readings.updated_at old.time payload.time)
          (λ time t p e. (p, e)))
        (λ time. >>=-Returns _ _ _ get_conn _ (get_conn-Returns _) (λ _.
          >>=-Returns _ _ _ (update_room (λ e. db_query_failed) (update_query old.id time payload))
            _ (update_room-Returns (λ e. db_query_failed) _ (update_query old.id time payload))
            (λ room.
              lift-Returns _ _
                (ok (
                  update_notifications to_string (not (Room.is_closed readings.checked_at old.time))
                    readings.ended_at payload.time room))
                (λ r t h e.
                  let same_id = find_room-id id before.rooms old found in
                  let (same, there) =
                    IsUpdated-found _ (update_query old.id time payload) old room t
                      (λ u p.
                        subst (λ (v : Tables V' B). RoomQueries.find_room old.id v.rooms ≡ some old)
                          (sym p.0)
                          (subst (λ i. RoomQueries.find_room i before.rooms ≡ some old)
                            (sym same_id) found))
                      h in
                  subst (λ x. AnswersUpdate readings id payload old x t) (ok_value e)
                    (
                      time,
                      IsUpdated-holds _ _ (update_query old.id time payload) room t (λ u p. p.1) h,
                      same,
                      subst (λ i. RoomQueries.find_room i t.rooms ≡ some room) same_id there,
                      refl,
                    )))))

  -- If an update goes through, the room was in the tables, was not closed if its time is to change,
  -- and the authorization service has granted the account to update it; the answer is the updated
  -- room, which the tables have under the same id.
  pub update-MayUpdate :
      (readings : Readings) (id : Uuid) (payload : UpdatePayload V') (account_id : AccountId)
      (w : World) (s s' : Session V' B) (r : Response V')
      → update to_string authorize readings id payload account_id w s ≡ (ok r, s')
      → (old : Room.Object V') × MayUpdate readings id payload account_id s.tables old
        × AnswersUpdate readings id payload old r s'.tables
  unfolding update
  update-MayUpdate readings id payload account_id w s s' r e =
      >>=-Returns (λ t. t ≡ s.tables) _
        (λ r t.
          (old : Room.Object V') × MayUpdate readings id payload account_id s.tables old
          × AnswersUpdate readings id payload old r t)
        (find_room id (time_requirement payload.time) readings.found_at) _
        (find_room-Returns (λ t. t ≡ s.tables) id (time_requirement payload.time) readings.found_at)
        (λ old.
          >>=-Returns _ _ _
            (allowed to_string authorize (room_request to_string old "update" account_id)) _
            (allowed-Returns to_string authorize _ (room_request to_string old "update" account_id))
            (λ u w1 s1 r s2 p k.
              let ((same, found, meets), granted) = p in
              let there =
                subst (λ (t : Tables V' B). RoomQueries.find_room id t.rooms ≡ some old) same
                  found in
              (
                old,
                (there, meets, granted),
                update_authorized-Returns s.tables readings id payload old there w1 s1 r s2 same k,
              )))
        w s r s' refl e
