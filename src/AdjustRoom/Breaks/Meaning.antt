-- ===== src/AdjustRoom/Breaks/Meaning.antt =====
-- What the breaks and video groups of a room mean, and the cut events that `call` of
-- `src/app/operations/adjust_room.rs` inserts for them.
use event.Base.{
  arith, ℤ, ◌≡◌, ◌≢◌, refl, ap, ◌∙◌, ◌⊎◌, Bool, true, false, Bool-cases, Option, none, some,
  Option-cases, inl, inr, List, [], ◌∷◌, String, str_eq, str_eq_iff,
}
use event.Base.Json.{Json}
use event.Db.{Uuid}
use event.Db.Event.{Object}
use event.Db.Event.Insert.{InsertQuery, new_query-plain}
use event.AdjustRoom.Cuts.{Command, start, stop, parse_command, cut_text}
use event.AdjustRoom.Breaks.{
  with_command, cut_json, break_command, group_command, cut_command, push_query, insert_queries,
}

parse_command-cut_json :
    (V : Type 0) ⦃j : Json V⦄ (c : Command) → parse_command (cut_text {V = V} (cut_json c)) ≡ some c
unfolding cut_text parse_command
parse_command-cut_json V ⦃j⦄ start =
    rw (cut_text, j.get-object1 "cut" (j.text "start"), j.as_str-text "start") refl
parse_command-cut_json V ⦃j⦄ stop =
    rw (cut_text, j.get-object1 "cut" (j.text "stop"), j.as_str-text "stop") refl

no_value :
    {A W : Type 0} (get : Option W) (read : W → Option A) (a : A)
    → get ≡ none
    → ¬ ((v : W) × (get ≡ some v) × (read v ≡ some a))
no_value get read a h (v, g, r) = cc

no_reading :
    {A W : Type 0} (get : Option W) (read : W → Option A) (a : A) (u : W)
    → get ≡ some u
    → read u ≢ some a
    → ¬ ((v : W) × (get ≡ some v) × (read v ≡ some a))
no_reading get read a u h n (v, g, r) = n cc

other_word :
    {o : Option String} (word s : String) → o ≡ some word → str_eq word s ≡ false → o ≢ some s
other_word word s h b r = ground (arith, str_eq_iff word s)

module _ {V : Type 0} ⦃j : Json V⦄ where
  -- The event is a break whose value is this truth value.
  abbrev pub IsBreak : Object V → Bool → Type 0
  IsBreak event b =
      (event.kind ≡ "break")
      × ((v : V) × (j.get event.content "value" ≡ some v) × (j.as_bool v ≡ some b))

  -- The event is no break, and its video group has this word.
  abbrev pub IsGroup : Object V → String → Type 0
  IsGroup event word =
      (event.kind ≢ "break")
      × ((v : V) × (j.get event.content "video_group" ≡ some v) × (j.as_str v ≡ some word))

  -- The cut starts where a break begins or a video group is created, and stops where a break ends
  -- or a video group is deleted; any other event is no cut.
  abbrev pub Means : Object V → Option Command → Type 0
  Means event (some start) = IsBreak event true ⊎ IsGroup event "created"
  Means event (some stop) = IsBreak event false ⊎ IsGroup event "deleted"
  Means event none =
      ((b : Bool) → ¬ IsBreak event b) × (¬ IsGroup event "created") × (¬ IsGroup event "deleted")

  break_command-Means :
      (event : Object V) → event.kind ≡ "break" → Means event (break_command event.content)
  break_command-Means event k = elim (Option-cases (j.get event.content "value")) [
    | inl g ↦
        rw (break_command, g)
          (
            λ b (_, x). no_value (j.get event.content "value") j.as_bool b g x,
            λ (n, _). n k,
            λ (n, _). n k,
          )
    | inr (v, g) ↦ elim (Option-cases (j.as_bool v)) [
      | inl h ↦
          rw (break_command, g, h)
            (
              λ b (_, x). no_reading (j.get event.content "value") j.as_bool b v g (λ r. cc) x,
              λ (n, _). n k,
              λ (n, _). n k,
            )
      | inr (true, h) ↦ rw (break_command, g, h) (inl (k, (v, g, h)))
      | inr (false, h) ↦ rw (break_command, g, h) (inl (k, (v, g, h)))
    ]
  ]

  group_command-Means :
      (event : Object V) → event.kind ≢ "break" → Means event (group_command event.content)
  group_command-Means event n = elim (Option-cases (j.get event.content "video_group")) [
    | inl g ↦
        rw (group_command, g)
          (
            λ b (k, _). n k,
            λ (_, x). no_value (j.get event.content "video_group") j.as_str "created" g x,
            λ (_, x). no_value (j.get event.content "video_group") j.as_str "deleted" g x,
          )
    | inr (v, g) ↦ elim (Option-cases (j.as_str v)) [
      | inl h ↦
          rw (group_command, g, h)
            (
              λ b (k, _). n k,
              λ (_, x).
                  no_reading (j.get event.content "video_group") j.as_str "created" v g (λ r. cc) x,
              λ (_, x).
                  no_reading (j.get event.content "video_group") j.as_str "deleted" v g (λ r. cc) x,
            )
      | inr (word, h) ↦ elim (Bool-cases (str_eq word "created")) [
        | inl c ↦
            rw (group_command, g, h, c)
              (inr (n, (v, g, h ∙ ap some ((str_eq_iff word "created").0 c))))
        | inr c ↦ elim (Bool-cases (str_eq word "deleted")) [
          | inl d ↦
              rw (group_command, g, h, c, d)
                (inr (n, (v, g, h ∙ ap some ((str_eq_iff word "deleted").0 d))))
          | inr d ↦
              rw (group_command, g, h, c, d)
                (
                  λ b (k, _). n k,
                  λ (_, x).
                      no_reading (j.get event.content "video_group") j.as_str "created" v g
                        (other_word word "created" h c) x,
                  λ (_, x).
                      no_reading (j.get event.content "video_group") j.as_str "deleted" v g
                        (other_word word "deleted" h d) x,
                )
        ]
      ]
    ]
  ]

  cut_command-Means : (event : Object V) → Means event (cut_command event)
  unfolding cut_command
  cut_command-Means event = elim (Bool-cases (str_eq event.kind "break")) [
    | inl b ↦ rw (cut_command, b) (break_command-Means event ((str_eq_iff event.kind "break").0 b))
    | inr b ↦
        rw (cut_command, b)
          (group_command-Means event (ground (arith, str_eq_iff event.kind "break")))
  ]

  -- The commands are those that the events mean, one for one, with their times.
  abbrev pub CommandsOf : List (Object V) → List (Command × ℤ) → Type 0
  CommandsOf [] cs = cs ≡ []
  CommandsOf (event ∷ events) cs =
      (o : Option Command) × (rest : List (Command × ℤ)) × Means event o
      × CommandsOf events rest
      × (cs ≡ with_command o event.occurred_at rest)

  -- The queries insert into the room cut events that carry these commands, one for one, at these
  -- times.
  abbrev pub InsertsCuts :
      {B : Type 0} → Uuid → List (InsertQuery V B) → List (Command × ℤ) → Type 0
  InsertsCuts room_id [] [] = Unit
  InsertsCuts room_id [] (c ∷ cs) = ⊥
  InsertsCuts room_id (q ∷ qs) [] = ⊥
  InsertsCuts room_id (q ∷ qs) ((c, t) ∷ cs) =
      (q.room_id ≡ room_id)
      × (q.kind ≡ "stream")
      × (q.occurred_at ≡ t)
      × ((v : V) × (q.content ≡ some v) × (parse_command (cut_text v) ≡ some c))
      × InsertsCuts room_id qs cs

  push_query-InsertsCuts :
      {B : Type 0} (from_json : V → Option B) (room_id : Uuid) (event : Object V)
      (o : Option Command) (qs : List (InsertQuery V B)) (cs : List (Command × ℤ))
      → InsertsCuts room_id qs cs
      → (qs' : List (InsertQuery V B)) × (push_query from_json room_id event o (some qs) ≡ some qs')
        × InsertsCuts room_id qs' (with_command o event.occurred_at cs)
  unfolding push_query
  push_query-InsertsCuts from_json room_id event none qs cs h = (qs, refl, h)
  push_query-InsertsCuts from_json room_id event (some c) qs cs h =
      let (q, e, k, t, v, r) =
        new_query-plain from_json room_id "stream" (cut_json c) event.occurred_at event.created_by
          refl in
      (q ∷ qs, rw (push_query, e) refl, (r, k, t, (cut_json c, v, parse_command-cut_json V c), h))

  -- The loop ends well, and the cut events that it inserts into the room carry, as the conversion
  -- of cut events to gaps reads them, one for one and at their times the commands that the events
  -- mean: a start for a break whose value is true and for a video group that is created, a stop for
  -- a break whose value is false and for a video group that is deleted, and none for any other
  -- event.
  pub insert_queries-InsertsCuts :
      {B : Type 0} (from_json : V → Option B) (room_id : Uuid) (events : List (Object V))
      → (qs : List (InsertQuery V B)) × (cs : List (Command × ℤ)) × (insert_queries from_json
            room_id events
          ≡ some qs)
        × CommandsOf events cs
        × InsertsCuts room_id qs cs
  unfolding insert_queries
  insert_queries-InsertsCuts from_json room_id [] = ([], [], refl, refl, tt)
  insert_queries-InsertsCuts from_json room_id (event ∷ events) =
      let (qs, cs, h, c, k) = insert_queries-InsertsCuts from_json room_id events in
      let (qs', h', k') =
        push_query-InsertsCuts from_json room_id event (cut_command event) qs cs k in
      (
        qs',
        with_command (cut_command event) event.occurred_at cs,
        rw h h',
        (cut_command event, cs, cut_command-Means event, c, refl),
        k',
      )
