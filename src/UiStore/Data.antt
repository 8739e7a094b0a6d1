-- ===== src/UiStore/Data.antt =====
-- The data of ui/src/store/useStore.ts.
use watchwarden.Base.{ℕ, Bool, Option, List, Text}
use watchwarden.JsMap.{Map}
use watchwarden.Timers.{Timers}

pub record UpdateProgress : Type 0 where
  pub step : Text
  pub container_name : Text
  pub progress : Option Text
  pub timestamp : ℕ

pub data Kind : Type 0 where
  success error info : Kind

-- What a toast says.
pub data Message : Type 0 where
  check_incomplete : (failed : ℕ) → Message
  check_mixed : (available failed : ℕ) → Message
  check_available : (available : ℕ) → Message
  up_to_date : Message
  update_done : (all_success : Bool) (count : ℕ) → Message

pub record Toast : Type 0 where
  pub id : ℕ
  pub kind : Kind
  pub message : Message

-- What a timer runs.
pub data Callback : Type 0 where
  removes_toast : (id : ℕ) → Callback
  flush_progress : Callback
  clear_agent : (agent_id : Text) → Callback

pub record Store : Type 0 where
  pub agent_statuses : Map Text
  pub checking_agents : List Text
  pub update_progress : Map UpdateProgress
  pub toasts : List Toast
  pub toast_counter : ℕ
  pub toast_timers : List (ℕ × ℕ)
  pub progress_buffer : Map UpdateProgress
  pub progress_flush_timer : Option ℕ
  pub timers : Timers Callback
