-- ===== src/Db/Event/Insert.antt =====
-- `InsertQuery` of `src/db/event/mod.rs`: an event to be inserted. `V` is `serde_json::Value`, `B`
-- is `CompactEvent`.
use event.Base.{◌≡◌, refl, ℤ, Bool, false, Option, none, some, String, str_eq, if◌then◌else◌}
use event.Db.{Uuid, AgentId}
use event.RoomTime.{DateTime}

pub record InsertQuery (V B : Type 0) : Type 0 where
  pub room_id : Uuid
  pub kind : String
  pub set : String
  pub label : Option String
  pub attribute : Option String
  pub content : Option V  -- `data`
  pub binary_data : Option B
  pub occurred_at : ℤ
  pub created_by : AgentId
  pub created_at : Option DateTime
  pub removed : Bool
  pub entity_type : Option String
  pub entity_event_id : Option ℤ

-- The `match` on the kind; `from_json` is `CompactEvent::from_json`.
unfoldable pub split_content :
    {V B : Type 0} → (V → Option B) → String → V → Option (Option V × Option B)
split_content from_json kind v =
    if str_eq kind "draw"
    then elim (from_json v) [ none ↦ none | some b ↦ some (none, some b) ]
    else some (some v, none)

-- The literal of `new`.
abbrev pub query_of :
    {V B : Type 0} → Uuid → String → Option V × Option B → ℤ → AgentId → InsertQuery V B
query_of room_id kind contents occurred_at created_by = record {
  room_id = room_id;
  kind = kind;
  set = kind;
  label = none;
  attribute = none;
  content = contents.0;
  binary_data = contents.1;
  occurred_at = occurred_at;
  created_by = created_by;
  created_at = none;
  removed = false;
  entity_type = none;
  entity_event_id = none;
}

-- `InsertQuery::new`.
unfoldable pub new_query :
    {V B : Type 0} → (V → Option B) → Uuid → String → V → ℤ → AgentId → Option (InsertQuery V B)
unfolding split_content
new_query from_json room_id kind v occurred_at created_by = elim (split_content from_json kind v) [
  | none ↦ none
  | some contents ↦ some (query_of room_id kind contents occurred_at created_by)
]

-- A query for an event that is no drawing takes its content as it is.
pub new_query-plain :
    {V B : Type 0} (from_json : V → Option B) (room_id : Uuid) (kind : String) (v : V) (t : ℤ)
    (by : AgentId)
    → str_eq kind "draw" ≡ false
    → (q : InsertQuery V B) × (new_query from_json room_id kind v t by ≡ some q)
      × (q.kind ≡ kind)
      × (q.occurred_at ≡ t)
      × (q.content ≡ some v)
      × (q.room_id ≡ room_id)
unfolding new_query split_content
new_query-plain from_json room_id kind v t by h = (
  query_of room_id kind (some v, none) t by,
  rw (new_query, split_content, h) refl,
  refl,
  refl,
  refl,
  refl,
)
