-- ===== src/CommitEdition/CollectGaps/Steps.antt =====
-- The runs of the nested cuts, and when they fail (`collect_gaps` of
-- `src/app/operations/commit_edition.rs`).
use event.Base.{
  ℕ, zero, suc, ◌+◌, ◌-◌, ◌%◌, ◌^◌, ◌<◌, ℤ, ◌≡◌, refl, Option, none, some, List, [], ◌∷◌, ◌++◌,
  ◌≤ℤ◌, length, sym, ◌∙◌, arith, ◌↔◌,
}
use mathlib.Core.Option
use mathlib.Core.Option.{some-injective}
use event.Ranges.{Range, IsOrdered}
use event.Ranges.Cover.{IsOrdered-weaken}
use event.AdjustRoom.Cuts.{Command, start, stop}
use event.AdjustRoom.Cuts.Meaning.{InOrder}
use event.CommitEdition.CollectGaps.Machine.{State, started, stopped, transition}

-- The machine on commands with their times.
abbrev pub then_run :
    Option (State × List Range) → (State → Option (List Range)) → Option (List Range)
then_run none k = none
then_run (some (s, pushed)) k = elim (k s) [ none ↦ none | some rest ↦ some (pushed ++ rest) ]

unfoldable pub run : State → List (Command × ℤ) → Option (List Range)
unfolding transition
run state [] = some []
run state ((c, t) ∷ cs) = then_run (transition c state t) (λ s. run s cs)

-- The number of open cuts after the commands so far, if no stop came with none open.
pub depth_after : ℕ → List (Command × ℤ) → Option ℕ
depth_after d [] = some d
depth_after d ((start, t) ∷ cs) = depth_after (suc d) cs
depth_after zero ((stop, t) ∷ cs) = none
depth_after (suc d) ((stop, t) ∷ cs) = depth_after d cs

abbrev pub depth : State → ℕ
depth (started s n) = suc n
depth stopped = 0

-- The five kinds of steps.
pub run-start :
    (t : ℤ) (cs : List (Command × ℤ)) → run stopped ((start, t) ∷ cs) ≡ run (started t 0) cs
unfolding run
run-start t cs = ground arith

pub run-start_nested :
    (s t : ℤ) (n : ℕ) (cs : List (Command × ℤ))
    → suc n < 2 ^ 64
    → run (started s n) ((start, t) ∷ cs) ≡ run (started s (suc n)) cs
unfolding run
run-start_nested s t n cs h = let e : (n + 1) % 2 ^ 64 ≡ suc n = omega arith in rw e (ground arith)

pub run-stop_nested :
    (s t : ℤ) (n : ℕ) (cs : List (Command × ℤ))
    → run (started s (suc n)) ((stop, t) ∷ cs) ≡ run (started s n) cs
unfolding run
run-stop_nested s t n cs = let e : suc n - 1 ≡ n = omega arith in rw e (ground arith)

pub run-stop :
    (s t : ℤ) (cs : List (Command × ℤ))
    → run (started s 0) ((stop, t) ∷ cs) ≡ Option.map (λ gaps. (s, t) ∷ gaps) (run stopped cs)
unfolding run
run-stop s t cs = ground arith

pub run-stop_stopped : (t : ℤ) (cs : List (Command × ℤ)) → run stopped ((stop, t) ∷ cs) ≡ none
unfolding run
run-stop_stopped t cs = refl

-- The machine fails exactly when some stop comes with no cut open.
pub run-none_iff :
    (state : State) (cs : List (Command × ℤ))
    → depth state + length cs < 2 ^ 64
    → (run state cs ≡ none) ↔ (depth_after (depth state) cs ≡ none)
unfolding depth_after
run-none_iff state [] l = unfold run in ground arith
run-none_iff stopped ((start, t) ∷ cs) l =
    rw (run-start t cs) (run-none_iff (started t 0) cs (omega arith))
run-none_iff stopped ((stop, t) ∷ cs) l = unfold run in ground arith
run-none_iff (started s n) ((start, t) ∷ cs) l =
    rw (run-start_nested s t n cs (omega arith)) (run-none_iff (started s (suc n)) cs (omega arith))
run-none_iff (started s zero) ((stop, t) ∷ cs) l =
    rw (run-stop s t cs) (ground (arith, run-none_iff stopped cs (omega arith)))
run-none_iff (started s (suc n)) ((stop, t) ∷ cs) l =
    rw (run-stop_nested s t n cs) (run-none_iff (started s n) cs (omega arith))

abbrev pub bound : State → ℤ → ℤ
bound (started s n) now = s
bound stopped now = now

abbrev pub StartedBy : State → ℤ → Type 0
StartedBy (started s n) now = s ≤ℤ now
StartedBy stopped now = Unit

-- The outermost cut that a stop closes is the first gap.
pub run-stop_inv :
    (s t : ℤ) (cs : List (Command × ℤ)) {gaps : List Range}
    → run (started s 0) ((stop, t) ∷ cs) ≡ some gaps
    → (rest : List Range) × (run stopped cs ≡ some rest) × (gaps ≡ (s, t) ∷ rest)
run-stop_inv s t cs {gaps} e = go (run stopped cs) refl (sym (run-stop s t cs) ∙ e)
  where
    go :
        (r : Option (List Range))
        → run stopped cs ≡ r
        → Option.map (λ gaps. (s, t) ∷ gaps) r ≡ some gaps
        → (rest : List Range) × (run stopped cs ≡ some rest) × (gaps ≡ (s, t) ∷ rest)
    go none p q = cc
    go (some rest) p q = (rest, p, cc)

pub run-nil_inv : (state : State) {gaps : List Range} → run state [] ≡ some gaps → gaps ≡ []
unfolding run
run-nil_inv state e = cc

pub run-IsOrdered :
    (state : State) (now : ℤ) (cs : List (Command × ℤ)) (gaps : List Range)
    → StartedBy state now
    → InOrder now cs
    → depth state + length cs < 2 ^ 64
    → run state cs ≡ some gaps
    → IsOrdered (bound state now) gaps
run-IsOrdered state now [] gaps b h l e = rw (run-nil_inv state e) tt
run-IsOrdered stopped now ((start, t) ∷ cs) gaps b h l e = IsOrdered-weaken now t gaps h.0 (
    run-IsOrdered (started t 0) t cs gaps (omega arith) h.1 (omega arith)
      (rw (run-start t cs) at e))
run-IsOrdered stopped now ((stop, t) ∷ cs) gaps b h l e = cc (run-stop_stopped t cs)
run-IsOrdered (started s n) now ((start, t) ∷ cs) gaps b h l e =
    run-IsOrdered (started s (suc n)) t cs gaps (omega arith) h.1 (omega arith)
      (sym (run-start_nested s t n cs (omega arith)) ∙ e)
run-IsOrdered (started s zero) now ((stop, t) ∷ cs) gaps b h l e =
    let (rest, p, q) = run-stop_inv s t cs e in
    rw q (omega arith, omega arith, run-IsOrdered stopped t cs rest tt h.1 (omega arith) p)
run-IsOrdered (started s (suc n)) now ((stop, t) ∷ cs) gaps b h l e =
    run-IsOrdered (started s n) t cs gaps (omega arith) h.1 (omega arith)
      (sym (run-stop_nested s t n cs) ∙ e)
