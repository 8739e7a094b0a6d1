-- ===== src/AgentRoutes/Data.antt =====
-- What the routes of the agents read (controller/src/api/routes/agents.ts, controller/src/db/queries.ts).
use watchwarden.Base.{ℕ, Bool, Option, List, [], ◌∷◌, ◌++◌, map, Text, text}
use watchwarden.Orchestrator

-- A row of `containers`; `base` has the columns that the orchestrator reads.
pub record Container : Type 0 where
  pub base : Orchestrator.Container
  pub image : Text
  pub current_digest : Option Text
  pub status : Text
  pub health_status : Option Text
  pub has_update : Bool
  pub excluded : Bool
  pub is_stateful : Bool

pub record Agent : Type 0 where
  pub id : Text
  pub status : Text

pub record Reply : Type 0 where
  pub code : ℕ
  pub body : Text

abbrev pub bases : List Container → List Orchestrator.Container
bases = map (λ c. c.base)

-- `xs.join(', ')`
unfoldable pub join : List Text → Text
join [] = []
join (x ∷ []) = x
join (x ∷ y ∷ xs) = x ++ (text ", " ++ join (y ∷ xs))
