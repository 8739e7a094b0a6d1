-- ===== src/Hub/UpdateResult/Data.antt =====
-- The data of an update's results (controller/src/ws/hub.ts, controller/src/db/queries.ts).
use watchwarden.Base.{ℕ, Bool, Option, List, Text}
use watchwarden.JsMap.{Map}
use watchwarden.Hub.AutoUpdate
use watchwarden.SessionBatcher

pub record UpdateResultItem : Type 0 where
  pub container_id : Text
  pub container_name : Text
  pub success : Bool
  pub old_digest : Option Text
  pub new_digest : Option Text
  pub old_image : Option Text
  pub new_image : Option Text
  pub error : Option Text
  pub duration_ms : ℕ

-- `results`, or else the fields of a single result; an `auto_rolled_back` that is missing is false.
pub record Payload : Type 0 where
  pub results : Option (List UpdateResultItem)
  pub container_id : Option Text
  pub container_name : Option Text
  pub success : Option Bool
  pub old_digest : Option Text
  pub new_digest : Option Text
  pub old_image : Option Text
  pub new_image : Option Text
  pub error : Option Text
  pub duration_ms : Option ℕ
  pub is_rollback : Option Bool
  pub auto_rolled_back : Bool
  pub rollback_reason : Option Text

pub data Status : Type 0 where
  success failed rolled_back : Status

-- A row of `update_log`.
pub record UpdateLog : Type 0 where
  pub agent_id : Text
  pub container_id : Text
  pub container_name : Text
  pub old_digest : Option Text
  pub new_digest : Option Text
  pub old_image : Option Text
  pub new_image : Option Text
  pub status : Status
  pub error : Option Text
  pub duration_ms : ℕ
  pub diff : Option Text

-- What the handler hands to `sendToAgent`.
pub data Message : Type 0 where
  check : (container_ids : List Text) → Message
  monitor_health :
      (container_id container_name : Text) (duration_seconds : ℕ) (rollback_image : Option Text)
      → Message

-- The fields of the effective policy that the handler reads.
pub record Policy : Type 0 where
  pub auto_rollback_enabled : Bool
  pub stability_window_seconds : ℕ

-- An entry of the audit log, or the containers of a notification, each with its error.
pub record Audit : Type 0 where
  pub agent_id : Text
  pub rollback_reason : Option Text
  pub containers : List Text

pub record Failed : Type 0 where
  pub agent_name : Text
  pub containers : List (Text × Text)

-- `hub` holds the agent's rows, the pending diffs and the marks of updates in flight; `completed` are
-- the UPDATE_COMPLETE events; `dispatched` are the notifications that do not go by the batcher.
pub record State : Type 0 where
  pub hub : AutoUpdate.Hub
  pub update_log : List UpdateLog
  pub statuses : Map Bool
  pub completed : List (Text × List UpdateResultItem)
  pub batcher : SessionBatcher.Batcher
  pub audit_log : List Audit
  pub dispatched : List Failed
  pub messages : List (Text × Message)
