-- ===== src/Db/Room/Queries.antt =====
-- `InsertQuery` and `UpdateQuery` of `src/db/room.rs` on the table of rooms. The hash maps are
-- given by their `get`.
use event.Base.{
  Bool, true, Option, none, some, List, [], ◌∷◌, String, ltb_ℤ, leb_ℤ, ◌==◌, if◌then◌else◌,
}
use event.Db.{Uuid, AccountId}
use event.Db.Room.{Object, ClassType}
use event.RoomTime.{DateTime, Bound, BoundedDateTimeTuple}

pub record InsertQuery (V : Type 0) : Type 0 where
  pub audience : String
  pub source_room_id : Option Uuid
  pub time : BoundedDateTimeTuple
  pub tags : Option V
  pub preserve_history : Bool
  pub classroom_id : Uuid
  pub locked_types : String → Option Bool
  pub whiteboard_access : AccountId → Option Bool
  pub kind : ClassType

-- `InsertQuery::new`.
unfoldable pub new_query :
    {V : Type 0} → String → BoundedDateTimeTuple → Uuid → ClassType → InsertQuery V
new_query audience time classroom_id kind = record {
  audience = audience;
  source_room_id = none;
  time = time;
  tags = none;
  preserve_history = true;
  classroom_id = classroom_id;
  locked_types = λ _. none;
  whiteboard_access = λ _. none;
  kind = kind;
}

-- The bounds make a range that is not empty, which the constraint `room_time_presence` wants; a
-- range whose start comes after its end is refused by `tstzrange`.
unfoldable pub is_range : BoundedDateTimeTuple → Bool
is_range (Bound.included s, Bound.included e) = leb_ℤ s e
is_range (Bound.included s, Bound.excluded e) = ltb_ℤ s e
is_range (Bound.excluded s, Bound.included e) = ltb_ℤ s e
is_range (Bound.excluded s, Bound.excluded e) = ltb_ℤ s e
is_range _ = true

-- The row of `InsertQuery::execute`.
unfoldable pub inserted_room : {V : Type 0} → Uuid → DateTime → InsertQuery V → Object V
inserted_room id now q = record {
  id = id;
  audience = q.audience;
  source_room_id = q.source_room_id;
  time = q.time;
  tags = q.tags;
  created_at = now;
  preserve_history = q.preserve_history;
  classroom_id = q.classroom_id;
  locked_types = q.locked_types;
  whiteboard_access = q.whiteboard_access;
  kind = q.kind;
}

pub record UpdateQuery (V : Type 0) : Type 0 where
  pub id : Uuid
  pub time : Option BoundedDateTimeTuple
  pub tags : Option V
  pub classroom_id : Option Uuid
  pub locked_types : Option (String → Option Bool)
  pub whiteboard_access : Option (AccountId → Option Bool)

-- `UpdateQuery::new`.
unfoldable pub update_of : {V : Type 0} → Uuid → UpdateQuery V
update_of id = record {
  id = id;
  time = none;
  tags = none;
  classroom_id = none;
  locked_types = none;
  whiteboard_access = none;
}

-- `m.retain(|_k, v| *v)`.
abbrev pub retain : {K : Type 0} → (K → Option Bool) → K → Option Bool
retain m k = elim (m k) [ some v ↦ if v then some true else none | none ↦ none ]

-- `COALESCE($n, column)`.
abbrev pub or_column : {A : Type 0} → Option A → A → A
or_column none a = a
or_column (some b) a = b

abbrev pub or_nullable : {A : Type 0} → Option A → Option A → Option A
or_nullable none a = a
or_nullable (some b) a = some b

abbrev pub or_map : {K : Type 0} → Option (K → Option Bool) → (K → Option Bool) → K → Option Bool
or_map none m = m
or_map (some n) m = retain n

unfoldable pub updated_room : {V : Type 0} → UpdateQuery V → Object V → Object V
updated_room q room = record room {
  time = or_column q.time room.time;
  tags = or_nullable q.tags room.tags;
  classroom_id = or_column q.classroom_id room.classroom_id;
  locked_types = or_map q.locked_types room.locked_types;
  whiteboard_access = or_map q.whiteboard_access room.whiteboard_access;
}

-- The rows after `UpdateQuery::execute`.
unfoldable pub update_rooms : {V : Type 0} → UpdateQuery V → List (Object V) → List (Object V)
unfolding updated_room
update_rooms q [] = []
update_rooms q (room ∷ rooms) =
    (if room.id == q.id then updated_room q room else room) ∷ update_rooms q rooms

-- `FindQuery::by_id`.
unfoldable pub find_room : {V : Type 0} → Uuid → List (Object V) → Option (Object V)
find_room id [] = none
find_room id (room ∷ rooms) = if room.id == id then some room else find_room id rooms
