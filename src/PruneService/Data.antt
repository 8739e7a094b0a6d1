-- ===== src/PruneService/Data.antt =====
-- The data of controller/src/ws/prune-service.ts.
use watchwarden.Base.{ℕ, Bool, Option, List, Text}
use watchwarden.JsMap.{Map}

pub record PruneOptions : Type 0 where
  pub keep_previous : ℕ
  pub dry_run : Bool
  pub include_stopped : Bool

-- A PruneError: the HTTP status of the answer.
pub data Result {ℓ} (A : Type ℓ) : Type ℓ where
  ok : A → Result A
  err : ℕ → Result A

-- A field of the request's body: missing, a natural number, another number, a boolean, or else.
pub data Value : Type 0 where
  undefined : Value
  natural : ℕ → Value
  other_number : Value
  boolean : Bool → Value
  other : Value

pub record Agent : Type 0 where
  pub id : Text
  pub name : Text
  pub is_online : Bool

pub data Status : Type 0 where
  success partial failed skipped : Status

pub record PruneAgentOutcome : Type 0 where
  pub agent_id : Text
  pub agent_name : Text
  pub status : Status
  pub images_removed : ℕ
  pub containers_removed : ℕ
  pub space_reclaimed : ℕ
  pub errors : List Text
  pub error : Option Text

pub record Totals : Type 0 where
  pub agents : ℕ
  pub images_removed : ℕ
  pub containers_removed : ℕ
  pub space_reclaimed : ℕ
  pub failed : ℕ
  pub skipped : ℕ

pub record PruneRunSummary : Type 0 where
  pub run_id : Text
  pub dry_run : Bool
  pub is_running : Bool
  pub started_at : ℕ
  pub results : List PruneAgentOutcome
  pub totals : Totals

-- The agent's PRUNE_RESULT; a field may be missing.
pub record PruneResultPayload : Type 0 where
  pub images_removed : Option ℕ
  pub containers_removed : Option ℕ
  pub space_reclaimed : Option ℕ
  pub errors : Option (List Text)

-- How the wait for the agent ends.
pub data Reply : Type 0 where
  resolved : PruneResultPayload → Reply
  rejected : (message : Text) → Reply

pub data Event : Type 0 where
  prune_started : (agent_id : Text) (dry_run : Bool) → Event
  prune_complete : (dry_run : Bool) → PruneAgentOutcome → Event
  run_progress : (run_id : Text) (index total : ℕ) (agent_id : Text) (state : Option Status) → Event
  run_complete : PruneRunSummary → Event

-- The rest of a run: the agents after the present one, and the summary that it fills.
pub record Loop : Type 0 where
  pub summary : PruneRunSummary
  pub index : ℕ
  pub remaining : List Agent
  pub online : List Text

pub record Execution : Type 0 where
  pub agent : Agent
  pub opts : PruneOptions
  pub request_id : Text
  pub loop : Option Loop

-- `run` is the current summary's key in `runs`, which holds every summary as it stands; `legacy` is
-- what `hub.setLegacyPrune` has set.
pub record Service : Type 0 where
  pub active : List Text
  pub run : Option Text
  pub runs : Map PruneRunSummary
  pub executions : List Execution
  pub legacy : Map Text
  pub events : List Event
