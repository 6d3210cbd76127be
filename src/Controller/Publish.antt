-- ===== src/Controller/Publish.antt =====
-- src/controller.rs, `publish_sessions` as the two moments that it is: it reads the sessions under
-- one lock, and later it writes status.json under another. Publications of several tasks overlap. This
-- is while one endpoint is up; the clearing after it is in Controller/Serve.
pub mod Overlap
use egdod.Prelude.{◌≡◌, List, [], ◌∷◌, ◌++◌}
use egdod.Controller.{SessionMap, Event, step}

-- The sessions, what status.json lists, and what the publications under way have read.
pub record Board : Type 0 where
  pub sessions : SessionMap
  pub listed : SessionMap
  pub under_way : List SessionMap

-- A connection opens or closes, a publication reads the sessions, or one that has read them writes
-- the file and is done.
pub data Step : Board → Board → Type 0 where
  changes : (b : Board) (e : Event) → Step b (record b { sessions = step e b.sessions })
  collects : (b : Board) → Step b (record b { under_way = b.sessions ∷ b.under_way })
  writes :
      (b : Board) (older newer : List SessionMap) (m : SessionMap)
      → b.under_way ≡ newer ++ (m ∷ older)
      → Step b (record b { listed = m; under_way = newer ++ older })

pub data Steps (b : Board) : Board → Type 0 where
  none_yet : Steps b b
  later : {c d : Board} → Steps b c → Step c d → Steps b d

-- At the start of `serve` nobody is connected and nothing is under way.
abbrev pub at_start : Board
at_start = record { sessions = []; listed = []; under_way = [] }
