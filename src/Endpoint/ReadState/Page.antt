-- ===== src/Endpoint/ReadState/Page.antt =====
-- The page of a set's state that `ReadHandler` of `src/app/endpoint/state.rs` answers.
use event.Base.{pos, ltb_ℤ, ◌≡◌, Bool, Option, String, List, [], ◌∷◌, length}
use event.Db.Event
use event.Db.Event.Raw.{RawObject}
use event.Db.Event.SetState.{Query, state_rows}
use event.Db.Event.SetState.Returns.{Selects}
use event.Db.Room
use event.Db.Room.Queries as RoomQueries
use event.Db.Session.{Session}
use event.Endpoint.ReadState.{flag, State, set_value}

module _ {V' B : Type 0} (label_before : String → String → Bool) (into_json : B → Option V') where
  -- The flag is whether the state has more events than the limit, which comes with the first of them.
  abbrev pub IsPage : Query → List (RawObject V' B) → State V' → Type 0
  IsPage q rows state =
      (events : List (Event.Object V')) × Selects label_before into_json q rows events
      × (state
          ≡ ("has_next", flag (ltb_ℤ q.limit (pos (length (state_rows label_before q rows)))))
            ∷ (q.set, set_value events)
            ∷ [])
