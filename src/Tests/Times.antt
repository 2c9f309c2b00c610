-- ===== src/Tests/Times.antt =====
-- Examples of room times.
use event.Base.{pos, ◌≡◌, refl, none, some, arith}
use event.RoomTime.{Bound, BoundedDateTimeTuple, RoomTimeBound, RoomTime, new, update, into_tuple}
use event.RoomTime.Update.{IsValid, update-IsValid, update_at_opening}

abbrev noon_to_two : RoomTime
noon_to_two = record { start = pos 12; end = RoomTimeBound.excluded (pos 14) }

abbrev eleven_to_fifteen : BoundedDateTimeTuple
eleven_to_fifteen = (Bound.included (pos 11), Bound.excluded (pos 15))

abbrev until_noon : BoundedDateTimeTuple
until_noon = (Bound.included (pos 10), Bound.excluded (pos 12))

abbrev noon_to_fifteen : RoomTime
noon_to_fifteen = record { start = pos 12; end = RoomTimeBound.excluded (pos 15) }

abbrev asked : RoomTime
asked = record { start = pos 11; end = RoomTimeBound.excluded (pos 15) }

update-IsValid_example : IsValid noon_to_fifteen
unfolding update
update-IsValid_example =
    update-IsValid (pos 13) noon_to_two eleven_to_fifteen {r = noon_to_fifteen} (λ e. cc) refl

update_at_opening_example :
    (r : RoomTime) × (update (pos 12) noon_to_two until_noon ≡ some r) × (new (into_tuple r) ≡ none)
unfolding new
update_at_opening_example =
    update_at_opening (pos 12) (pos 12) noon_to_two until_noon
      (record { start = pos 10; end = RoomTimeBound.excluded (pos 12) }) refl refl refl refl
      (omega arith)
