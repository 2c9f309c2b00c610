-- ===== src/Db/Schema/Compact.antt =====
-- `Event` and `CompactEvent` of `src/db/event/schema.rs`: a drawing and its stored form.
use event.Base.{Option, none, some, Result, ok, err, ◌>>=◌, ◌≡◌, refl}
use event.Db.Schema.Records.{EventSchema, CompactEventSchema}
use event.Db.Schema.Float.{Doubles, Singles}
use event.Db.Schema.Vector.{PathJson, JsonText}
use event.Db.Schema.Other.{from_event, into_event}
use event.Db.Schema.Other.RoundTrip.{ReadsBack, into_event-from_event}
use event.Db.Schema.PathEvent.{CompactPathEvent, CompactError, try_from_event}
use event.Db.Schema.PathEvent.Restore.{into_event as restored}

-- `Event`.
pub data Event (F32 F64 V : Type 0) : Type 0 where
  path : EventSchema F32 F64 V → Event F32 F64 V
  other : EventSchema F32 F64 V → Event F32 F64 V

pub data CompactEvent (F32 F64 : Type 0) : Type 0 where
  path : CompactPathEvent F32 F64 → CompactEvent F32 F64
  other : CompactEventSchema F32 F64 → CompactEvent F32 F64

-- The errors of `from_json`.
pub data JsonError : Type 0 where
  no_event : JsonError
  not_compacted : CompactError → JsonError

abbrev compacting {ℓ} : {A : Type ℓ} → Result CompactError A → Result JsonError A
compacting (ok a) = ok a
compacting (err e) = err (not_compacted e)

module _ {F32 F64 V' : Type 0} ⦃f : Doubles F64⦄ ⦃g : Singles F32 F64⦄ ⦃j : PathJson F64 V'⦄
    ⦃t : JsonText V'⦄ where
  unfoldable pub compact : Event F32 F64 V' → Result CompactError (CompactEvent F32 F64)
  compact (path evt) = try_from_event evt >>= λ c. ok (path c)
  compact (other evt) = ok (other (from_event evt))

  -- `from_value` is `serde_json::from_value`.
  unfoldable pub from_json :
      (V' → Option (Event F32 F64 V')) → V' → Result JsonError (CompactEvent F32 F64)
  unfolding compact
  from_json from_value v = elim (from_value v) [
    | none ↦ err no_event
    | some evt ↦ compacting (compact evt)
  ]

  -- `to_value` is `serde_json::to_value`.
  unfoldable pub into_json : (Event F32 F64 V' → Option V') → CompactEvent F32 F64 → Option V'
  into_json to_value (path evt) = to_value (path (restored evt))
  into_json to_value (other evt) = to_value (other (into_event evt))

  -- A drawing that is no path, whose JSON form is read and given alike, and of whose path, if it
  -- has one, each part is read from its text as it was, is stored, and read back as the same JSON.
  pub into_json-from_json :
      (from_value : V' → Option (Event F32 F64 V')) (to_value : Event F32 F64 V' → Option V')
      (v : V') (e : EventSchema F32 F64 V')
      → from_value v ≡ some (other e)
      → to_value (other e) ≡ some v
      → ReadsBack t e.path
      → (c : CompactEvent F32 F64) × (from_json from_value v ≡ ok c)
        × (into_json to_value c ≡ some v)
  unfolding from_json into_json
  into_json-from_json from_value to_value v e h k r =
      (other (from_event e), rw (from_json, h) refl, rw (into_event-from_event e r) k)
