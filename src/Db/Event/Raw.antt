-- ===== src/Db/Event/Raw.antt =====
-- `RawObject` of `src/db/event/mod.rs`: a row of the table of events, whose content is JSON or
-- binary. `V` is `serde_json::Value`, `B` is `CompactEvent`.
use event.Base.{ℤ, Bool, Option, none, some, String, Result, ok, err, ◌>>=◌}
use event.Db.{Uuid, AgentId}
use event.RoomTime.{DateTime}
use event.Db.Event.{Object}

pub record RawObject (V B : Type 0) : Type 0 where
  pub id : Uuid
  pub room_id : Uuid
  pub kind : String
  pub set : String
  pub label : Option String
  pub attribute : Option String
  pub content : Option V  -- `data`
  pub binary_data : Option B
  pub occurred_at : ℤ
  pub created_by : AgentId
  pub created_at : DateTime
  pub deleted_at : Option DateTime
  pub original_occurred_at : ℤ
  pub original_created_by : AgentId
  pub removed : Bool

-- `sqlx::Error::Decode`.
pub data DecodeError : Type 0 where
  no_json no_content : DecodeError

abbrev decoded {ℓ} : {A : Type ℓ} → Option A → DecodeError → Result DecodeError A
decoded none e = err e
decoded (some v) e = ok v

-- The content of a row; `into_json` is `CompactEvent::into_json`.
unfoldable pub stored_content :
    {V B : Type 0} → (B → Option V) → Option V → Option B → Result DecodeError V
stored_content into_json content (some binary) = decoded (into_json binary) no_json
stored_content into_json content none = decoded content no_content

-- `TryFrom<RawObject> for Object`.
unfoldable pub from_raw :
    {V B : Type 0} → (B → Option V) → RawObject V B → Result DecodeError (Object V)
unfolding stored_content
from_raw into_json raw = stored_content into_json raw.content raw.binary_data >>= λ v. ok (record {
  id = raw.id;
  room_id = raw.room_id;
  kind = raw.kind;
  set = raw.set;
  label = raw.label;
  attribute = raw.attribute;
  content = v;
  occurred_at = raw.occurred_at;
  created_by = raw.created_by;
  created_at = raw.created_at;
  deleted_at = raw.deleted_at;
  original_occurred_at = raw.original_occurred_at;
  original_created_by = raw.original_created_by;
  removed = raw.removed;
})
