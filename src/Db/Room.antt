-- ===== src/Db/Room.antt =====
-- `Object` of `src/db/room.rs`: a room, when it is open, and which events want more than the
-- right to publish. The hash maps are given by their `get`; `V` is `serde_json::Value`.
pub mod Access
pub mod Queries
use event.Base.{
  ℤ, Bool, true, false, ◌&&◌, ◌||◌, not, Option, none, some, String, str_eq, ltb_ℤ, leb_ℤ, same,
}
use event.Db.{Uuid, AccountId}
use event.RoomTime.{DateTime, Bound, BoundedDateTimeTuple}

pub data ClassType : Type 0 where
  webinar p2p minigroup : ClassType

pub record Object (V : Type 0) : Type 0 where
  pub id : Uuid
  pub audience : String
  pub source_room_id : Option Uuid
  pub time : BoundedDateTimeTuple
  pub tags : Option V
  pub created_at : DateTime
  pub preserve_history : Bool
  pub classroom_id : Uuid
  pub locked_types : String → Option Bool
  pub whiteboard_access : AccountId → Option Bool
  pub kind : ClassType

-- `== Some(&true)`.
abbrev pub is_set : Option Bool → Bool
is_set none = false
is_set (some b) = b

abbrev is_minigroup : ClassType → Bool
is_minigroup minigroup = true
is_minigroup _ = false

-- `Object::is_closed` by the time of the room; the clock is an argument.
unfoldable pub is_closed : DateTime → BoundedDateTimeTuple → Bool
is_closed now (_, Bound.included t) = ltb_ℤ t now
is_closed now (_, Bound.excluded t) = leb_ℤ t now
is_closed now (_, Bound.unbounded) = false

unfoldable pub is_open : DateTime → BoundedDateTimeTuple → Bool
is_open now (Bound.included s, Bound.excluded e) = ltb_ℤ s now && ltb_ℤ now e
is_open now (Bound.included s, Bound.unbounded) = ltb_ℤ s now
is_open now _ = false

module _ {V : Type 0} where
  unfoldable pub validate_whiteboard_access : Object V → Bool
  validate_whiteboard_access room = is_minigroup room.kind

  account_has_whiteboard_access : Object V → AccountId → Bool
  unfolding validate_whiteboard_access
  account_has_whiteboard_access room account = elim (validate_whiteboard_access room) [
    | true ↦ is_set (room.whiteboard_access account)
    | false ↦ true
  ]

  has_locked_type : Object V → String → Bool
  has_locked_type room kind = is_set (room.locked_types kind)

  unfoldable pub event_should_authz_room_update : Object V → String → AccountId → Bool
  unfolding has_locked_type account_has_whiteboard_access
  event_should_authz_room_update room kind account =
      has_locked_type room kind
      || ((str_eq kind "draw" || str_eq kind "draw_lock")
          && not (account_has_whiteboard_access room account))
