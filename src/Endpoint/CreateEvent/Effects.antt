-- ===== src/Endpoint/CreateEvent/Effects.antt =====
-- What `CreateHandler` of `src/app/endpoint/event.rs` makes of a payload: the row that it stores, the
-- event that it only sends, and their time.
use event.Base.{
  arith, ◌≢◌, ◌-ℤ◌, ltb_ℤ, Option-cases, str_eq, str_eq_iff, ◌≡◌, refl, sym, ap, ℤ, true, false,
  Bool-cases, inl, inr, ◌⊎◌, Option, none, some, List, [], ◌∷◌, ◌++◌, ok,
}
use event.Db.{Uuid, AgentId}
use event.Db.Event
use event.Db.Event.Insert.{InsertQuery, split_content}
use event.Db.Event.Raw.{RawObject, from_raw}
use event.Db.Event.Stored.{stored_row, on_event_insert}
use event.Db.Queries.Laws.{ok_value}
use event.Db.Room
use event.AdjustRoom.Invert.{total_nanos}
use event.RoomTime.{Bound, BoundedDateTimeTuple, DateTime, new, try_from}
use event.Db.Session.{Tables}
use event.Endpoint.CreateEvent.{
  CreatePayload, Readings, since_opening, with_payload, or_default, transient_event,
}

some_value : {A : Type 0} {a b : A} → ◌≡◌ {A = Option A} (some a) (some b) → a ≡ b
some_value h = cc

module _ {V' : Type 0} where
  -- The event has what the payload says but for `removed`, in the room, by the agent, at the time.
  abbrev pub IsEventOf : Uuid → CreatePayload V' → AgentId → ℤ → Event.Object V' → Type 0
  IsEventOf room_id payload agent_id t event =
      (event.room_id ≡ room_id)
      × (event.kind ≡ payload.kind)
      × (event.set ≡ or_default payload.set payload.kind)
      × (event.label ≡ payload.label)
      × (event.attribute ≡ payload.attribute)
      × (event.content ≡ payload.content)
      × (event.created_by ≡ agent_id)
      × (event.occurred_at ≡ t)
      × (event.removed ≡ false)

  pub transient_event-IsEventOf :
      (readings : Readings) (room_id : Uuid) (payload : CreatePayload V') (agent_id : AgentId)
      (t : ℤ)
      → IsEventOf room_id payload agent_id t (transient_event readings room_id payload t agent_id)
  unfolding transient_event
  transient_event-IsEventOf readings room_id payload agent_id t =
      (refl, refl, refl, refl, refl, refl, refl, refl, refl)

  -- The time since the room opened, in nanoseconds.
  abbrev pub IsSinceOpening : Room.Object V' → DateTime → ℤ → Type 0
  IsSinceOpening room now t =
      (start : DateTime) × (room.time.0 ≡ Bound.included start) × (t ≡ total_nanos (now -ℤ start))

pub since_opening-IsSinceOpening :
    {X : Type 0} (now : DateTime) (time : BoundedDateTimeTuple) (t : ℤ)
    → since_opening {X = X} now (try_from time) ≡ ok t
    → (start : DateTime) × (time.0 ≡ Bound.included start) × (t ≡ total_nanos (now -ℤ start))
unfolding try_from new
since_opening-IsSinceOpening now (Bound.included start, Bound.unbounded) t h =
    (start, refl, sym (ok_value h))
since_opening-IsSinceOpening now (Bound.included start, Bound.excluded close) t h =
    elim (Bool-cases (ltb_ℤ start close)) [
      | inl b ↦ (start, refl, sym (ok_value (rw (try_from, new, b) at h)))
      | inr b ↦ cc (rw (try_from, new, b) at h)
    ]
since_opening-IsSinceOpening now (Bound.included start, Bound.included close) t h = cc
since_opening-IsSinceOpening now (Bound.excluded start, end) t h = cc
since_opening-IsSinceOpening now (Bound.unbounded, end) t h = cc

module _ {V' B : Type 0} where
  -- A drawing is stored as the binary data that are made of its content, any other event as its
  -- content.
  abbrev pub HoldsContent : (V' → Option B) → CreatePayload V' → Option V' → Option B → Type 0
  HoldsContent from_json payload content binary_data =
      ((payload.kind ≡ "draw")
        × (content ≡ none)
        × ((b : B) × (from_json payload.content ≡ some b) × (binary_data ≡ some b)))
      ⊎ ((payload.kind ≢ "draw") × (content ≡ some payload.content) × (binary_data ≡ none))

  split_content-HoldsContent :
      (from_json : V' → Option B) (payload : CreatePayload V') (content : Option V')
      (binary_data : Option B)
      → split_content from_json payload.kind payload.content ≡ some (content, binary_data)
      → HoldsContent from_json payload content binary_data
  unfolding split_content
  split_content-HoldsContent from_json payload content binary_data h =
      elim (Bool-cases (str_eq payload.kind "draw")) [
        | inl d ↦ elim (Option-cases (from_json payload.content)) [
          | inl k ↦ cc (rw (split_content, d, k) at h)
          | inr (b, k) ↦
              let same = some_value (rw (split_content, d, k) at h) in
              inl (
                (str_eq_iff payload.kind "draw").0 d,
                sym (ap (λ x. x.0) same),
                (b, k, sym (ap (λ x. x.1) same)),
              )
        ]
        | inr d ↦
            let same = some_value (rw (split_content, d) at h) in
            inr (
              ground (arith, str_eq_iff payload.kind "draw"),
              sym (ap (λ x. x.0) same),
              sym (ap (λ x. x.1) same),
            )
      ]

  -- The row has what the payload says, in the room, by the agent, at the time.
  abbrev pub IsRowOf :
      (V' → Option B) → Uuid → CreatePayload V' → AgentId → ℤ → RawObject V' B → Type 0
  IsRowOf from_json room_id payload agent_id t row =
      (row.room_id ≡ room_id)
      × (row.kind ≡ payload.kind)
      × (row.set ≡ or_default payload.set payload.kind)
      × (row.label ≡ payload.label)
      × (row.attribute ≡ payload.attribute)
      × (row.created_by ≡ agent_id)
      × (row.removed ≡ payload.removed)
      × (row.occurred_at ≡ t)
      × HoldsContent from_json payload row.content row.binary_data

  -- One row of the payload is new among the events, and reads as the event.
  abbrev pub StoresEvent :
      (V' → Option B)
      → (B → Option V')
      → Uuid
      → CreatePayload V'
      → AgentId
      → ℤ
      → Tables V' B
      → Tables V' B
      → Event.Object V'
      → Type 0
  StoresEvent from_json into_json room_id payload agent_id occurred_at t t' event =
      (row : RawObject V' B) × IsRowOf from_json room_id payload agent_id occurred_at row
      × (record t { events = t.events ++ row ∷ [] } ≡ t')
      × (from_raw into_json row ≡ ok event)

  -- What is there after the event has been created: a row more, or the same tables.
  abbrev pub Creates :
      (V' → Option B)
      → (B → Option V')
      → Uuid
      → CreatePayload V'
      → AgentId
      → ℤ
      → Tables V' B
      → Tables V' B
      → Event.Object V'
      → Type 0
  Creates from_json into_json room_id payload agent_id occurred_at t t' event =
      ((payload.is_persistent ≡ true)
        × StoresEvent from_json into_json room_id payload agent_id occurred_at t t' event)
      ⊎ ((payload.is_persistent ≡ false)
          × (t ≡ t')
          × IsEventOf room_id payload agent_id occurred_at event)

  pub stored_row-IsRowOf :
      (from_json : V' → Option B) (room_id id : Uuid) (now : DateTime)
      (events : List (RawObject V' B)) (payload : CreatePayload V') (agent_id : AgentId) (t : ℤ)
      (q : InsertQuery V' B)
      → q.room_id ≡ room_id
      → q.kind ≡ payload.kind
      → q.set ≡ payload.kind
      → q.created_by ≡ agent_id
      → q.occurred_at ≡ t
      → split_content from_json payload.kind payload.content ≡ some (q.content, q.binary_data)
      → IsRowOf from_json room_id payload agent_id t
          (stored_row id now events (with_payload payload q))
  unfolding stored_row on_event_insert
  stored_row-IsRowOf from_json room_id id now events payload agent_id t q r k s b o c = (
    r,
    k,
    ap (or_default payload.set) s,
    refl,
    refl,
    b,
    refl,
    o,
    split_content-HoldsContent from_json payload q.content q.binary_data c,
  )
