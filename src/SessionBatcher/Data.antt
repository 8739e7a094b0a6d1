-- ===== src/SessionBatcher/Data.antt =====
-- The data of controller/src/notifications/session-batcher.ts.
use watchwarden.Base.{ℕ, Bool, Option, List, Text}
use watchwarden.JsMap.{Map}
use watchwarden.Timers.{Timers}

pub record UpdateResultItem : Type 0 where
  pub container_id : Text
  pub container_name : Text
  pub image : Option Text
  pub success : Bool
  pub error : Option Text
  pub duration_ms : ℕ

pub record Success : Type 0 where
  pub name : Text
  pub image : Text
  pub duration_ms : ℕ

pub record Failure : Type 0 where
  pub name : Text
  pub error : Text

pub record AgentData : Type 0 where
  pub successes : List Success
  pub failures : List Failure

pub record UpdateBatch : Type 0 where
  pub agents : Map AgentData
  pub timer : ℕ
  pub max_timer : ℕ

pub record Container : Type 0 where
  pub name : Text
  pub image : Text

pub record AgentUpdates : Type 0 where
  pub agent_name : Text
  pub containers : List Container

pub record CheckBatch : Type 0 where
  pub agents : List AgentUpdates
  pub received_agent_ids : List Text
  pub expected_agent_count : ℕ
  pub timer : ℕ

pub data Event : Type 0 where
  update_success : List (Text × List Success) → Event
  update_failed : List (Text × List Failure) → Event
  update_available : List AgentUpdates → Event

pub data Callback : Type 0 where
  flush_update flush_check : Callback

pub record Batcher : Type 0 where
  pub update_batch : Option UpdateBatch
  pub check_batch : Option CheckBatch
  pub notified_updates : Map ℕ
  pub timers : Timers Callback
  pub dispatched : List Event

abbrev pub update_batch_window_ms : ℕ
update_batch_window_ms = 30000

abbrev pub update_batch_max_wait_ms : ℕ
update_batch_max_wait_ms = 300000

abbrev pub dedup_ttl_ms : ℕ
dedup_ttl_ms = 86400000

abbrev pub max_dedup_entries : ℕ
max_dedup_entries = 10000

abbrev pub check_batch_window_ms : ℕ
check_batch_window_ms = 90000

abbrev pub check_batch_max_wait_ms : ℕ
check_batch_max_wait_ms = 30000
