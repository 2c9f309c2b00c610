-- ===== src/CommitEdition/CollectGaps/Keys.antt =====
-- The cuts that `collect_gaps` of `src/app/operations/commit_edition.rs` goes through: what each
-- one carries, and their order.
use event.Base.{
  ℤ, ◌≡◌, refl, Option, none, some, List, [], ◌∷◌, ◌++◌, map, Result, ok, err, ◌>>=◌, All, String,
  arith,
}
use event.Base.Json.{Json}
use event.Db.Event
use event.Db.Change
use event.AdjustRoom.Cuts.Meaning.{InOrder}
use event.AdjustRoom.Cuts.{Command, parse_command}
use event.CommitEdition.CollectGaps.{
  GapsError, EventOrChangeAtDur, event_at, change_at, key, sort_by_key, insert_by_key, cut_vec,
  push_change, push_changes, command_and_time,
}
use event.CommitEdition.CollectGaps.Meaning.{IsSortedTimes}
use event.CommitEdition.CollectGaps.Sorting.{IsSorted, IsSortedFrom, sort_by_key-IsSorted}

module _ {W : Type 0} ⦃j : Json W⦄ where
  -- The cut carries the command and the time.
  abbrev pub Carries : EventOrChangeAtDur W → Command → ℤ → Type 0
  Carries v c t =
      (text : Option String) × (command_and_time v ≡ ok (text, t)) × (parse_command text ≡ some c)

  -- The cuts carry these commands with these times, one for one.
  abbrev pub AllCarry : List (EventOrChangeAtDur W) → List (Command × ℤ) → Type 0
  AllCarry [] [] = Unit
  AllCarry [] (c ∷ cs) = ⊥
  AllCarry (v ∷ vs) [] = ⊥
  AllCarry (v ∷ vs) ((c, t) ∷ cs) = Carries v c t × AllCarry vs cs

module _ {W : Type 0} ⦃j : Json W⦄ where
  -- The key by which a cut is sorted is its time.
  abbrev pub KeyIsTime : EventOrChangeAtDur W → Type 0
  KeyIsTime (event_at ev k) = ev.occurred_at ≡ k
  KeyIsTime (change_at ch k) = ch.event_occurred_at ≡ some k

  pub key-time :
      (v : EventOrChangeAtDur W) (c : Command) (t : ℤ) → KeyIsTime v → Carries v c t → key v ≡ t
  unfolding command_and_time key
  key-time (event_at ev k) c t h (text, r, p) = ground arith
  key-time (change_at ch k) c t h (text, r, p) = ground arith

  insert_by_key-KeyIsTime :
      (v : EventOrChangeAtDur W) (vs : List (EventOrChangeAtDur W))
      → KeyIsTime v
      → All KeyIsTime vs
      → All KeyIsTime (insert_by_key v vs)
  unfolding insert_by_key
  insert_by_key-KeyIsTime v [] h k = (h, tt)
  insert_by_key-KeyIsTime v (w ∷ ws) h k = ground (arith, insert_by_key-KeyIsTime v ws h k.1)

  sort_by_key-KeyIsTime :
      (vs : List (EventOrChangeAtDur W)) → All KeyIsTime vs → All KeyIsTime (sort_by_key vs)
  unfolding sort_by_key
  sort_by_key-KeyIsTime [] h = tt
  sort_by_key-KeyIsTime (v ∷ vs) h =
      insert_by_key-KeyIsTime v (sort_by_key vs) h.0 (sort_by_key-KeyIsTime vs h.1)

  -- What is pushed has its time for a key.
  abbrev AllKeys : Result GapsError (List (EventOrChangeAtDur W)) → Type 0
  AllKeys (ok vs) = All KeyIsTime vs
  AllKeys (err e) = Unit

  push_change-AllKeys :
      (ch : Change.Object W) (o : Option ℤ) (r : Result GapsError (List (EventOrChangeAtDur W)))
      → ch.event_occurred_at ≡ o
      → AllKeys r
      → AllKeys (push_change ch o r)
  unfolding push_change
  push_change-AllKeys ch none r e h = tt
  push_change-AllKeys ch (some t) (ok vs) e h = (e, h)
  push_change-AllKeys ch (some t) (err x) e h = tt

  push_changes-AllKeys : (chs : List (Change.Object W)) → AllKeys (push_changes chs)
  unfolding push_changes
  push_changes-AllKeys [] = tt
  push_changes-AllKeys (ch ∷ chs) =
      push_change-AllKeys ch ch.event_occurred_at (push_changes chs) refl (push_changes-AllKeys chs)

  events-KeyIsTime :
      (evs : List (Event.Object W)) (vs : List (EventOrChangeAtDur W))
      → All KeyIsTime vs
      → All KeyIsTime (map (λ ev. event_at ev ev.occurred_at) evs ++ vs)
  events-KeyIsTime [] vs h = h
  events-KeyIsTime (ev ∷ evs) vs h = (refl, events-KeyIsTime evs vs h)

  sorted_cuts :
      (evs : List (Event.Object W)) (r : Result GapsError (List (EventOrChangeAtDur W)))
      {cuts : List (EventOrChangeAtDur W)}
      → AllKeys r
      → (r >>= λ vs. ok (sort_by_key (map (λ ev. event_at ev ev.occurred_at) evs ++ vs))) ≡ ok cuts
      → IsSorted cuts × All KeyIsTime cuts
  sorted_cuts evs (ok vs) {cuts} h e =
      let all : List (EventOrChangeAtDur W) = map (λ ev. event_at ev ev.occurred_at) evs ++ vs in
      let eq : sort_by_key all ≡ cuts = cc in
      rw (← eq) (sort_by_key-IsSorted all, sort_by_key-KeyIsTime all (events-KeyIsTime evs vs h))
  sorted_cuts evs (err x) h e = cc

  -- The cuts are in order of their keys, which are their times.
  pub cut_vec-sorted :
      (evs : List (Event.Object W)) (chs : List (Change.Object W))
      {cuts : List (EventOrChangeAtDur W)}
      → cut_vec evs chs ≡ ok cuts
      → IsSorted cuts × All KeyIsTime cuts
  unfolding cut_vec
  cut_vec-sorted evs chs e = sorted_cuts evs (push_changes chs) (push_changes-AllKeys chs) e

  -- So the times of the commands that they carry are in order.
  pub AllCarry-InOrder :
      (lo : ℤ) (vs : List (EventOrChangeAtDur W)) (cs : List (Command × ℤ))
      → IsSortedFrom lo vs
      → All KeyIsTime vs
      → AllCarry vs cs
      → InOrder lo cs
  AllCarry-InOrder lo [] [] h k a = tt
  AllCarry-InOrder lo [] (c ∷ cs) h k a = elim a [ ]
  AllCarry-InOrder lo (v ∷ vs) [] h k a = elim a [ ]
  AllCarry-InOrder lo (v ∷ vs) ((c, t) ∷ cs) h k a =
      let e : key v ≡ t = key-time v c t k.0 a.0 in
      rw (← e) (h.0, AllCarry-InOrder (key v) vs cs h.1 k.1 a.1)

  pub AllCarry-IsSortedTimes :
      (vs : List (EventOrChangeAtDur W)) (cs : List (Command × ℤ))
      → IsSorted vs
      → All KeyIsTime vs
      → AllCarry vs cs
      → IsSortedTimes cs
  AllCarry-IsSortedTimes [] [] h k a = tt
  AllCarry-IsSortedTimes [] (c ∷ cs) h k a = elim a [ ]
  AllCarry-IsSortedTimes (v ∷ vs) [] h k a = elim a [ ]
  AllCarry-IsSortedTimes (v ∷ vs) ((c, t) ∷ cs) h k a =
      let e : key v ≡ t = key-time v c t k.0 a.0 in
      rw (← e) (AllCarry-InOrder (key v) vs cs h k.1 a.1)
