-- ===== src/AdjustRoom/Invert.antt =====
-- `invert_segments` of `src/app/operations/adjust_room.rs`: the gaps that segments leave in a room.
pub mod Cover
pub mod RoundTrip
use event.Base.{
  ℕ, ℤ, pos, negsuc, ◌-ℤ◌, ltb, ltb_ℤ, ◌&&◌, Option, none, some, List, [], ◌∷◌, ◌++◌, if◌then◌else◌,
}
use event.Base.Word.{i64_max, fits_i64, wrap_i64, to_u64}
use event.Ranges.{Range, last_stop}

-- `Duration::num_nanoseconds().unwrap_or(std::i64::MAX)`, of a `chrono::Duration` in nanoseconds.
unfoldable pub total_nanos : ℤ → ℤ
total_nanos room_duration = if fits_i64 room_duration then room_duration else i64_max

leading_gap : ℤ → List Range
leading_gap first_segment_start =
    if ltb_ℤ (pos 0) first_segment_start then (pos 0, first_segment_start) ∷ [] else []

-- The loop over `segments.iter().zip(&segments[1..])`.
inner_gaps : ℤ → List Range → List Range
inner_gaps segment_stop [] = []
inner_gaps segment_stop ((next_start, next_stop) ∷ rest) =
    (segment_stop, next_start) ∷ inner_gaps next_stop rest

-- `StdDuration::from_nanos((room_duration_nanos - last_segment_stop) as u64).gt(&min)`, with the
-- difference taken as an `i64`.
trailing_gap : ℤ → ℤ → ℕ → List Range
trailing_gap last_segment_stop nanos min_segment_length =
    if ltb_ℤ last_segment_stop nanos
      && ltb min_segment_length (to_u64 (wrap_i64 (nanos -ℤ last_segment_stop)))
    then (last_segment_stop, nanos) ∷ []
    else []

-- Every path returns `Ok`, so the list stands for the result.
unfoldable pub invert_segments : List Range → ℤ → ℕ → List Range
unfolding total_nanos leading_gap inner_gaps trailing_gap
invert_segments [] room_duration min_segment_length = (pos 0, total_nanos room_duration) ∷ []
invert_segments ((start, stop) ∷ rest) room_duration min_segment_length =
    leading_gap start
    ++ (inner_gaps stop rest
        ++ trailing_gap (last_stop stop rest) (total_nanos room_duration) min_segment_length)
