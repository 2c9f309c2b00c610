-- ===== src/Endpoint/ReadState/Fields.antt =====
-- The fields of the query that `ReadHandler` of `src/app/endpoint/state.rs` builds, and the time
-- up to which it reads.
use event.Base.{
  int_laws, ltb_ℤ, Bool-cases, subst, ℤ, pos, negsuc, ◌+ℤ◌, ◌-ℤ◌, ◌<ℤ◌, ◌-◌, ◌^◌, ◌≡◌, ◌⊎◌, refl,
  Option, none, some, Option-cases, inl, inr, ok, String, arith,
}
use event.Base.Word.{i64_max, fits_i64, wrap_i64}
use event.Db.{Uuid}
use event.Db.Event.SetState.{with_attribute, with_occurred_at, new_query}
use event.Db.Queries.Laws.{ok_value}
use event.Endpoint.ReadState.{ReadPayload, choose_limit, state_query, past_close, up_to}
use event.RoomTime.{Bound, BoundedDateTimeTuple, try_from, new}

module _ (payload : ReadPayload) (room_id : Uuid) (t : ℤ) (set : String) where
  pub state_query-fields :
      ((state_query payload room_id t set).set ≡ set)
      × ((state_query payload room_id t set).room_id ≡ room_id)
      × ((state_query payload room_id t set).limit ≡ choose_limit payload.limit)
      × ((state_query payload room_id t set).attribute ≡ payload.attribute)
      × ((state_query payload room_id t set).occurred_at ≡ payload.occurred_at)
      × ((state_query payload room_id t set).original_occurred_at ≡ t)
  unfolding state_query new_query with_attribute with_occurred_at
  state_query-fields = elim (Option-cases payload.occurred_at) [
    | inl h ↦ elim (Option-cases payload.attribute) [
      | inl k ↦ rw (state_query, h, k) (refl, refl, refl, refl, refl, refl)
      | inr (a, k) ↦ rw (state_query, h, k) (refl, refl, refl, refl, refl, refl)
    ]
    | inr (o, h) ↦ elim (Option-cases payload.attribute) [
      | inl k ↦ rw (state_query, h, k) (refl, refl, refl, refl, refl, refl)
      | inr (a, k) ↦ rw (state_query, h, k) (refl, refl, refl, refl, refl, refl)
    ]
  ]

-- The state of a room that closes, without a time asked for, is read up to one nanosecond past its
-- length, or up to the last number of an `i64` where the length exceeds that. The sum wraps around
-- where the length is that very number.
abbrev EndsPast : ℤ → ℤ → Type 0
EndsPast d t =
    ((d <ℤ i64_max) × (t ≡ d +ℤ pos 1))
    ⊎ ((i64_max <ℤ d) × (t ≡ i64_max))
    ⊎ ((d ≡ i64_max) × (t ≡ negsuc (2 ^ 63 - 1)))

-- The state is read up to the time that is asked for; where none is, to the end of the room.
abbrev pub IsCutOff : Option ℤ → BoundedDateTimeTuple → ℤ → Type 0
IsCutOff (some asked) time t = t ≡ asked
IsCutOff none (Bound.included start, Bound.unbounded) t = t ≡ i64_max
IsCutOff none (Bound.included start, Bound.excluded close) t =
    (start <ℤ close) × EndsPast (close -ℤ start) t
IsCutOff none _ t = ⊥

past_close-EndsPast : (d : ℤ) → pos 0 <ℤ d → EndsPast d (past_close d)
unfolding wrap_i64 event.Base.Word.to_u64 ◌+ℤ◌
past_close-EndsPast (pos n) h = ground arith
past_close-EndsPast (negsuc n) h = ground arith

pub up_to-IsCutOff :
    {X : Type 0} (asked : Option ℤ) (time : BoundedDateTimeTuple) (t : ℤ)
    → up_to {X = X} asked (try_from time) ≡ ok t
    → IsCutOff asked time t
unfolding up_to try_from new
up_to-IsCutOff (some asked) time t h = ground arith
up_to-IsCutOff none (Bound.included start, Bound.unbounded) t h = ground arith
up_to-IsCutOff none (Bound.included start, Bound.excluded close) t h =
    elim (Bool-cases (ltb_ℤ start close)) [
      | inl b ↦
          let e : past_close (close -ℤ start) ≡ t = ok_value (rw (up_to, try_from, new, b) at h) in
          let open_before : start <ℤ close = ground arith in
          (
            open_before,
            subst (EndsPast (close -ℤ start)) e
                (past_close-EndsPast (close -ℤ start) (omega (int_laws, open_before))),
          )
      | inr b ↦ cc (rw (up_to, try_from, new, b) at h)
    ]
up_to-IsCutOff none (Bound.included start, Bound.included close) t h = cc
up_to-IsCutOff none (Bound.excluded start, end) t h = cc
up_to-IsCutOff none (Bound.unbounded, end) t h = cc
