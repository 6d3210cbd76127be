-- ===== src/Controller/Publish/Overlap.antt =====
-- How far what status.json lists can be behind the sessions.
use mathlib.Core.Path.{subst}
use egdod.Prelude.{◌≡◌, refl, ap, List, [], ◌∷◌, ◌++◌, All}
use egdod.Controller.{SessionMap, Event, step, run}
use egdod.Controller.Publish.{Board, changes, collects, writes, Steps, none_yet, later, at_start}

-- The sessions as they were at some moment of a history, the latest event first.
abbrev pub Past : List Event → SessionMap → Type 0
Past es m = (newer : List Event) × (older : List Event) × (es ≡ newer ++ older) × (m ≡ run older)

Past-later : (es : List Event) (e : Event) (m : SessionMap) → Past es m → Past (e ∷ es) m
Past-later es e m (newer, older, split, is) =
    (e ∷ newer, older, ap (λ (l : List Event). e ∷ l) split, is)

Past-All :
    (es : List Event) (e : Event) (ms : List SessionMap) → All (Past es) ms → All (Past (e ∷ es)) ms
Past-All es e [] h = tt
Past-All es e (m ∷ ms) h = (Past-later es e m h.0, Past-All es e ms h.1)

All-removed :
    (es : List Event) (newer older : List SessionMap) (m : SessionMap)
    → All (Past es) (newer ++ (m ∷ older))
    → Past es m × All (Past es) (newer ++ older)
All-removed es [] older m h = (h.0, h.1)
All-removed es (x ∷ newer) older m h =
    let (there, rest) = All-removed es newer older m h.1 in (there, (h.0, rest))

-- A board after some history.
abbrev pub IsOf : List Event → Board → Type 0
IsOf es b = (b.sessions ≡ run es) × Past es b.listed × All (Past es) b.under_way

-- Whatever publications overlap, what status.json lists is always the sessions as they were at some
-- moment since the start, and the sessions are those of all events so far.
pub Steps-IsOf : (b : Board) → Steps at_start b → (es : List Event) × IsOf es b
unfolding run
Steps-IsOf _ none_yet = ([], (refl, ([], [], refl, refl), tt))
Steps-IsOf _ (later s (changes b e)) =
    let (es, (now, past, all)) = Steps-IsOf b s in
    (e ∷ es, (ap (step e) now, Past-later es e b.listed past, Past-All es e b.under_way all))
Steps-IsOf _ (later s (collects b)) =
    let (es, (now, past, all)) = Steps-IsOf b s in (es, (now, past, (([], es, refl, now), all)))
Steps-IsOf _ (later s (writes b older newer m this)) =
    let (es, (now, past, all)) = Steps-IsOf b s in
    let (here, rest) =
      All-removed es newer older m (subst (λ (ms : List SessionMap). All (Past es) ms) this all) in
    (es, (now, here, rest))

-- From any board where nothing is under way and after any event, two publications that overlap can
-- leave status.json with the sessions from before the event, with nothing under way that would put
-- it right: the one that read first writes last.
pub Steps-stale :
    (b : Board) (e : Event)
    → b.under_way ≡ []
    → (c : Board) × Steps b c
      × (c.sessions ≡ step e b.sessions)
      × (c.listed ≡ b.sessions)
      × (c.under_way ≡ [])
Steps-stale b e quiet =
    let b1 : Board = record b { under_way = b.sessions ∷ b.under_way } in
    let b2 : Board = record b1 { sessions = step e b.sessions } in
    let b3 : Board = record b2 { under_way = b2.sessions ∷ b2.under_way } in
    let b4 : Board = record b3 { listed = b2.sessions; under_way = b.sessions ∷ b.under_way } in
    let b5 : Board = record b4 { listed = b.sessions; under_way = b.under_way } in
    (
      b5,
      later
          (later (later (later (later none_yet (collects b)) (changes b1 e)) (collects b2))
            (writes b3 (b.sessions ∷ b.under_way) [] b2.sessions refl))
          (writes b4 b.under_way [] b.sessions refl),
      refl,
      refl,
      quiet,
    )
