-- ===== src/Db/Schema/Other/RoundTrip.antt =====
-- What compacting a drawing that is no path keeps (`src/db/event/schema.rs`).
use event.Base.{Option, some, none, List, [], ◌∷◌, All, map, filter_map, ◌≡◌, refl, ap}
use mathlib.Core.Option
use event.Db.Schema.Records.{EventSchema}
use event.Db.Schema.Vector.{JsonText}
use event.Db.Schema.Other.{from_event, into_event}

module _ {V' : Type 0} (j : JsonText V') where
  -- Each part of the path, if there is one, is read from its text as it was.
  abbrev pub ReadsBack : Option (List V') → Type 0
  ReadsBack none = Unit
  ReadsBack (some l) = All (λ v. j.from_str (j.to_string v) ≡ some v) l

  filter_map-map :
      (l : List V') → ReadsBack (some l) → filter_map j.from_str (map j.to_string l) ≡ l
  filter_map-map [] h = refl
  filter_map-map (v ∷ l) (h, k) = rw h (ap (λ r. v ∷ r) (filter_map-map l k))

  restored_path :
      (p : Option (List V'))
      → ReadsBack p
      → Option.map (λ q. filter_map j.from_str q) (Option.map (λ q. map j.to_string q) p) ≡ p
  restored_path none h = refl
  restored_path (some l) h = ap some (filter_map-map l h)

module _ {F32 F64 V' : Type 0} ⦃j : JsonText V'⦄ where
  -- A drawing is the same after it was compacted and restored, in every field, if each part of its
  -- path is read from its text as it was.
  pub into_event-from_event :
      (e : EventSchema F32 F64 V') → ReadsBack j e.path → into_event (from_event e) ≡ e
  unfolding into_event from_event
  into_event-from_event e h = λ i. record e { path = restored_path j e.path h i }
