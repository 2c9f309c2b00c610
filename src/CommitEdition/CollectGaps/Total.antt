-- ===== src/CommitEdition/CollectGaps/Total.antt =====
-- `collect_gaps` of `src/app/operations/commit_edition.rs` from end to end.
use event.Base.{
  ◌^◌, ◌<◌, ℤ, ◌≡◌, refl, Option, none, some, List, [], ◌∷◌, ◌++◌, Result, ok, err, ◌>>=◌, length,
  ◌↔◌, inl, inr, Option-cases, arith,
}
use event.Base.Json.{Json}
use event.Db.Event
use event.Db.Change
use event.Ranges.{Range, covers}
use event.AdjustRoom.Cuts.{Command}
use event.CommitEdition.CollectGaps.{
  GapsError, EventOrChangeAtDur, cut_vec, gaps_loop, collect_gaps, failure, or_fail,
}
use event.CommitEdition.CollectGaps.Machine.{State, stopped, transition}
use event.CommitEdition.CollectGaps.Steps.{then_run, run, depth_after, run-none_iff}
use event.CommitEdition.CollectGaps.Meaning.{cut_at, IsSortedTimes, covers-run_all}
use event.CommitEdition.CollectGaps.Keys.{AllCarry, AllCarry-IsSortedTimes, cut_vec-sorted}

-- The result of the loop, by what the machine gives.
abbrev Agrees : Option (List Range) → Result GapsError (List Range) → Type 0
Agrees none r = (e : GapsError) × (r ≡ err e)
Agrees (some gaps) r = r ≡ ok gaps

Agrees-push :
    (pushed : List Range) (o : Option (List Range)) (r : Result GapsError (List Range))
    → Agrees o r
    → Agrees
        (elim o [ none ↦ none | some rest ↦ some (pushed ++ rest) ])
        (r >>= λ rest. ok (pushed ++ rest))
Agrees-push pushed none r h = (h.0, rw h.1)
Agrees-push pushed (some gaps) r h = rw h

Agrees-turn :
    (o : Option (State × List Range)) (f : GapsError) (k : State → Option (List Range))
    (l : State → Result GapsError (List Range))
    → ((s : State) → Agrees (k s) (l s))
    → Agrees (then_run o k) (or_fail o f >>= λ next. l next.0 >>= λ rest. ok (next.1 ++ rest))
Agrees-turn none f k l h = (f, refl)
Agrees-turn (some (s, pushed)) f k l h = Agrees-push pushed (k s) (l s) (h s)

module _ {W : Type 0} ⦃j : Json W⦄ where
  gaps_loop-Agrees :
      (state : State) (vs : List (EventOrChangeAtDur W)) (cs : List (Command × ℤ))
      → AllCarry vs cs
      → Agrees (run state cs) (gaps_loop state vs)
  unfolding gaps_loop run
  gaps_loop-Agrees state [] [] h = refl
  gaps_loop-Agrees state [] (c ∷ cs) h = elim h [ ]
  gaps_loop-Agrees state (v ∷ vs) [] h = elim h [ ]
  gaps_loop-Agrees state (v ∷ vs) ((c, t) ∷ cs) ((text, r, p), rest) =
      rw (r, p)
        (Agrees-turn (transition c state t) (failure v) (λ s. run s cs) (λ s. gaps_loop s vs)
          (λ s. gaps_loop-Agrees s vs cs rest))

  -- For fewer than 2^64 cuts, each with a command, the collection fails exactly when some stop
  -- comes with no cut open; otherwise a moment lies in a gap exactly when some cut is open at it and all
  -- that are open are closed later, by the commands in order of time.
  pub collect_gaps_lem :
      (events : List (Event.Object W)) (changes : List (Change.Object W))
      (cuts : List (EventOrChangeAtDur W)) (cs : List (Command × ℤ))
      → cut_vec events changes ≡ ok cuts
      → AllCarry cuts cs
      → length cs < 2 ^ 64
      → (((e : GapsError) × (collect_gaps events changes ≡ err e)) ↔ (depth_after 0 cs ≡ none))
        × ((gaps : List Range)
            → collect_gaps events changes ≡ ok gaps
            → (x : ℤ) → covers x gaps ≡ cut_at x 0 cs)
  unfolding collect_gaps
  collect_gaps_lem events changes cuts cs e a l =
      let sorted = cut_vec-sorted events changes e in
      let times : IsSortedTimes cs = AllCarry-IsSortedTimes cuts cs sorted.0 sorted.1 a in
      let fails = run-none_iff stopped cs (omega arith) in
      rw e (elim (Option-cases (run stopped cs)) [
        | inl n ↦
            let (x, f) = rw (n, Agrees) at (gaps_loop-Agrees stopped cuts cs a) in
            (((λ _. fails.0 n), λ _. (x, f)), λ gaps g. cc)
        | inr (gaps', g') ↦
            let f : gaps_loop stopped cuts ≡ ok gaps' =
              rw (g', Agrees) at (gaps_loop-Agrees stopped cuts cs a) in
            (
              ((λ h. cc (h.1, f)), λ h. cc (fails.1 h, g')),
              λ gaps g x. covers-run_all x cs gaps times l (ground (arith, g', f, g)),
            )
      ])
