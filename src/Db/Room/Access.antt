-- ===== src/Db/Room/Access.antt =====
-- When a room is open, and who may publish to it (`src/db/room.rs`).
use event.Base.{true, false, some, String, str_eq_iff, ◌≡◌, ◌≢◌, ◌↔◌, ◌⊎◌, arith, ◌≤ℤ◌, ◌<ℤ◌}
use event.Db.{AccountId}
use event.RoomTime.{DateTime, BoundedDateTimeTuple, RoomTime, new, update, update_to, into_tuple}
use event.RoomTime.Update.{IsValid, update-some}
use event.Db.Room.{Object, minigroup, is_open, is_closed, event_should_authz_room_update}

-- A room with a valid time is open exactly when the moment is later than its opening
-- and the room is not closed.
pub is_open_iff :
    (now : DateTime) (time : RoomTime)
    → IsValid time
    → (is_open now (into_tuple time) ≡ true)
      ↔ ((time.start <ℤ now) × (is_closed now (into_tuple time) ≡ false))
unfolding is_open is_closed into_tuple
is_open_iff now time v = ground arith

-- After an update of a room that has opened, the room is closed at that moment exactly when the
-- bounds asked for are in the past.
pub is_closed-update :
    (now : DateTime) (self asked r : RoomTime) (t : BoundedDateTimeTuple)
    → self.start ≤ℤ now
    → new t ≡ some asked
    → update now self t ≡ some r
    → is_closed now (into_tuple r) ≡ is_closed now (into_tuple asked)
unfolding is_closed into_tuple update_to
is_closed-update now self asked r t h e u = ground (arith, update-some now self t e)

-- An event wants the right to update the room exactly when its kind is locked, or it draws in a
-- minigroup and the account has not been given access to the whiteboard.
pub event_should_authz_room_update_iff :
    {V : Type 0} (room : Object V) (kind : String) (account : AccountId)
    → (event_should_authz_room_update room kind account ≡ true) ↔ (
        (room.locked_types kind ≡ some true)
        ⊎ (((kind ≡ "draw") ⊎ (kind ≡ "draw_lock"))
            × (room.kind ≡ minigroup)
            × (room.whiteboard_access account ≢ some true)))
unfolding event_should_authz_room_update
event_should_authz_room_update_iff room kind account =
    ground (arith, str_eq_iff kind "draw", str_eq_iff kind "draw_lock")
