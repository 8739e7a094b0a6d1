-- ===== src/Hub/AutoUpdate/Data.antt =====
-- The data of a check's results (controller/src/ws/hub.ts, controller/src/db/queries.ts).
use watchwarden.Base.{ℕ, Bool, Option, List, Text}
use watchwarden.JsMap.{Map}

pub record Container : Type 0 where
  pub id : Text
  pub docker_id : Text
  pub name : Text
  pub image : Text
  pub current_digest : Option Text
  pub latest_digest : Option Text
  pub has_update : Bool
  pub update_first_seen : Option ℕ
  pub diff : Option Text
  pub is_stateful : Bool
  pub policy : Option Text
  pub label_policy : Option Text
  pub update_level : Option Text
  pub label_update_level : Option Text

pub record CheckResultItem : Type 0 where
  pub container_id : Text
  pub container_name : Option Text
  pub has_update : Bool
  pub current_digest : Option Text
  pub latest_digest : Option Text
  pub diff : Option Text
  pub check_failed : Bool

pub record Policy : Type 0 where
  pub min_age_hours : ℕ
  pub strategy : Text

-- What the controller sends: to the agent, to the browsers, or to the notification batcher.
pub data Sent : Type 0 where
  update : (agent_id : Text) (container_ids : List Text) (strategy : Text) → Sent
  check_complete : (agent_id : Text) (updates_available failed_checks : ℕ) → Sent
  dispatch_check_results : (agent_id : Text) (container_names : List Text) → Sent

pub record Hub : Type 0 where
  pub containers : List Container
  pub pending_diffs : Map (Option Text)
  pub auto_update_in_flight : List Text
  pub sent : List Sent

-- The configuration that a check reads: `agentRecord.auto_update`, `auto_update_global`, the
-- effective policy and `global_update_level`, which is empty if it is not set.
pub record Config : Type 0 where
  pub auto_update : Bool
  pub auto_update_global : Bool
  pub policy : Policy
  pub global_update_level : Text
