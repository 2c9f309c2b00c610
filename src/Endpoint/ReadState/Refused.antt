-- ===== src/Endpoint/ReadState/Refused.antt =====
-- What `ReadHandler` of `src/app/endpoint/state.rs` refuses.
use event.Base.{◌<◌, ◌≡◌, refl, Bool, ◌⊎◌, Option, String, List, Result, err, length, arith}
use event.Db.{Uuid, AccountId}
use event.Db.Session.{World, Session}
use event.RoomTime.{DateTime}
use event.Endpoint.CreateEvent.{AuthzRequest}
use event.Endpoint.Helpers.{ErrorKind, invalid_state_sets}
use event.Endpoint.ReadState.{ReadPayload, validate, handle}

validate-refuses :
    {X : Type 0} (sets : List String)
    → (length sets ≡ 0) ⊎ (10 < length sets)
    → ◌≡◌ {A = Result {0} (ErrorKind X) Unit} (validate sets) (err invalid_state_sets)
unfolding validate
validate-refuses sets h = ground arith

module _ {X V' B : Type 0} (label_before : String → String → Bool) (into_json : B → Option V') where
  -- If no set is asked for, or more than 10 are, then the handler refuses before it reads anything.
  pub handle-refuses :
      (to_string : Uuid → String) (authorize : AuthzRequest → Result {0} X Unit) (now : DateTime)
      (room_id : Uuid) (payload : ReadPayload) (account_id : AccountId) (w : World)
      (s : Session V' B)
      → (length payload.sets ≡ 0) ⊎ (10 < length payload.sets)
      → handle label_before into_json to_string authorize now room_id payload account_id w s
        ≡ (err invalid_state_sets, s)
  unfolding handle validate
  handle-refuses to_string authorize now room_id payload account_id w s h =
      rw (validate-refuses {X = X} payload.sets h) refl
