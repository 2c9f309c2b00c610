-- ===== src/CommitEdition/CloneEvents/Join.antt =====
-- The `FULL OUTER JOIN` of the events of a room and the changes of an edition
-- (`src/app/operations/commit_edition.rs`).
pub mod Parts
use event.Base.{
  Bool, true, false, ◌||◌, not, Option, none, some, List, [], ◌∷◌, ◌++◌, map, ◌==◌, if◌then◌else◌,
}
use event.Db.{Uuid}
use event.Db.Event.Raw.{RawObject}
use event.Db.Change
use event.Db.Change.{addition, modification, removal, bulk_removal}

pub data Joined (V B : Type 0) : Type 0 where
  both : RawObject V B → Change.Object V → Joined V B
  only_event : RawObject V B → Joined V B
  only_change : Change.Object V → Joined V B

-- `change.event_id = event.id`.
abbrev pub names : {V : Type 0} → Change.Object V → Uuid → Bool
names c id = elim c.event_id [ none ↦ false | some i ↦ i == id ]

unfoldable pub matching : {V : Type 0} → Uuid → List (Change.Object V) → List (Change.Object V)
matching id [] = []
matching id (c ∷ cs) = let rest = matching id cs in if names c id then c ∷ rest else rest

-- `change.kind <> 'removal' OR change.id IS NULL`; the rest of the condition holds of all rows.
abbrev pub not_removal : Change.ChangeType → Bool
not_removal removal = false
not_removal _ = true

module _ {V B : Type 0} where
  -- The rows of one event with the changes that name it.
  abbrev pub event_rows : RawObject V B → List (Change.Object V) → List (Joined V B)
  event_rows e [] = only_event e ∷ []
  event_rows e (c ∷ cs) = both e c ∷ map (both e) cs

  unfoldable pub joined_events : List (RawObject V B) → List (Change.Object V) → List (Joined V B)
  unfolding matching
  joined_events [] cs = []
  joined_events (e ∷ es) cs = event_rows e (matching e.id cs) ++ joined_events es cs

  abbrev pub names_any : Change.Object V → List (RawObject V B) → Bool
  names_any c [] = false
  names_any c (e ∷ es) = names c e.id || names_any c es

  unfoldable pub unmatched : List (RawObject V B) → List (Change.Object V) → List (Joined V B)
  unmatched es [] = []
  unmatched es (c ∷ cs) =
      let rest = unmatched es cs in if names_any c es then rest else only_change c ∷ rest

  unfoldable pub full_join : List (RawObject V B) → List (Change.Object V) → List (Joined V B)
  unfolding joined_events unmatched
  full_join es cs = joined_events es cs ++ unmatched es cs

  abbrev pub is_wanted : Joined V B → Bool
  is_wanted (both e c) = not_removal c.kind
  is_wanted (only_event e) = true
  is_wanted (only_change c) = not_removal c.kind

  unfoldable pub wanted : List (Joined V B) → List (Joined V B)
  wanted [] = []
  wanted (r ∷ rs) = let rest = wanted rs in if is_wanted r then r ∷ rest else rest
