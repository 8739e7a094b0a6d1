-- ===== src/UiStore.antt =====
-- ui/src/store/useStore.ts: what the browser shows of an agent's checks and updates. The values of
-- an object with string keys are a `Map`; the buffer and the timers of the module stand in the
-- store's record. A toast's number is that of its id, `toast-1` and so on. The events of pruning and
-- of container actions, the settings of the page and the refetches are not modelled.
mod Data
pub use Data.*
pub mod Toasts
pub mod Progress
mod Tests
use watchwarden.Base.{
  ℕ, ◌+◌, ◌-◌, ◌≡◌, Bool, true, false, not, ◌&&◌, ◌||◌, Option, none, some, List, [], ◌∷◌, ◌++◌,
  map, Text, text, ltb, ◌==◌, if◌then◌else◌, or_else, is_empty, is_some, length, keep, drop, every,
}
use watchwarden.JsMap
use watchwarden.JsMap.{Map}
use watchwarden.Timers
use watchwarden.Timers.{Timers}
use watchwarden.Semver.{starts_with}

-- `toasts.slice(-4)`
unfoldable pub last_four : List Toast → List Toast
last_four ts = drop (length ts - 4) ts

unfoldable pub add_toast : Kind → Message → ℕ → Store → Store
unfolding last_four
add_toast kind message now s =
    let id = s.toast_counter + 1 in
    record s {
      toast_counter = id;
      toasts = last_four s.toasts ++ record { id = id; kind = kind; message = message } ∷ [];
      timers = Timers.set_timeout (removes_toast id) (now + 4000) s.timers;
      toast_timers = s.toast_timers ++ (id, s.timers.next) ∷ [];
    }

-- `toastTimers.get(id)`
timer_of : ℕ → List (ℕ × ℕ) → Option ℕ
timer_of id [] = none
timer_of id ((i, t) ∷ m) = if i == id then some t else timer_of id m

clear_optional : Option ℕ → Timers Callback → Timers Callback
clear_optional none t = t
clear_optional (some timer) t = Timers.clear_timeout timer t

unfoldable pub remove_toast : ℕ → Store → Store
unfolding timer_of clear_optional
remove_toast id s = record s {
  timers = clear_optional (timer_of id s.toast_timers) s.timers;
  toast_timers = keep (λ e. not (e.0 == id)) s.toast_timers;
  toasts = keep (λ t. not (t.id == id)) s.toasts;
}

-- The key of an agent's container.
abbrev pub key_of : Text → Text → Text
key_of agent_id container_id = agent_id ++ (text ":" ++ container_id)

unfoldable pub is_of : Text → Text → Bool
is_of agent_id key = starts_with (agent_id ++ text ":") key

-- The entries without those of an agent.
unfoldable pub without_agent : Text → Map UpdateProgress → Map UpdateProgress
unfolding is_of
without_agent agent_id [] = []
without_agent agent_id ((k, v) ∷ m) =
    if is_of agent_id k then without_agent agent_id m else (k, v) ∷ without_agent agent_id m

-- The entries without those of an agent that are older than a time.
unfoldable pub without_stale : Text → ℕ → Map UpdateProgress → Map UpdateProgress
unfolding is_of
without_stale agent_id threshold [] = []
without_stale agent_id threshold ((k, v) ∷ m) =
    let rest = without_stale agent_id threshold m in
    if is_of agent_id k && ltb v.timestamp threshold then rest else (k, v) ∷ rest

-- The entries whose key is not in the set.
unfoldable pub without_keys : List Text → Map UpdateProgress → Map UpdateProgress
without_keys ks [] = []
without_keys ks ((k, v) ∷ m) =
    if JsMap.member k ks then without_keys ks m else (k, v) ∷ without_keys ks m

unfoldable pub delete_keys : List Text → Map UpdateProgress → Map UpdateProgress
delete_keys [] m = m
delete_keys (k ∷ ks) m = delete_keys ks (JsMap.delete k m)

-- `{ ...m, ...batch }`
unfoldable pub merge : Map UpdateProgress → Map UpdateProgress → Map UpdateProgress
merge m [] = m
merge m ((k, v) ∷ batch) = merge (JsMap.set k v m) batch

-- HEARTBEAT_RECEIVED
unfoldable pub heartbeat_received : Text → ℕ → Store → Store
unfolding without_stale without_agent
heartbeat_received agent_id now s =
    let next = without_stale agent_id (now - 60000) s.update_progress in
    if length next == length s.update_progress then s else record s {
      update_progress = next;
      progress_buffer = without_agent agent_id s.progress_buffer;
    }

check_toast : ℕ → ℕ → Kind × Message
check_toast available failed =
    if ltb 0 failed && available == 0
    then (error, check_incomplete failed)
    else if ltb 0 failed
    then (info, check_mixed available failed)
    else if ltb 0 available
    then (info, check_available available)
    else (success, up_to_date)

-- CHECK_COMPLETE; a count that is missing is 0.
unfoldable pub check_complete : Text → Option ℕ → Option ℕ → ℕ → Store → Store
unfolding check_toast add_toast
check_complete agent_id available failed now s =
    let toast = check_toast (or_else available 0) (or_else failed 0) in
    add_toast toast.0 toast.1 now
      (record s { checking_agents = JsMap.remove agent_id s.checking_agents })

arm_flush : ℕ → Store → Store
arm_flush now s = if is_some s.progress_flush_timer then s else record s {
  timers = Timers.set_timeout flush_progress (now + 100) s.timers;
  progress_flush_timer = some s.timers.next;
}

-- UPDATE_PROGRESS
unfoldable pub progress_received :
    (agent_id container_id step container_name : Text) (progress : Option Text) (now : ℕ)
    → Store
    → Store
unfolding arm_flush
progress_received agent_id container_id step container_name progress now s =
    arm_flush now (record s {
      progress_buffer =
          JsMap.set (key_of agent_id container_id)
            (record {
              step = step;
              container_name = container_name;
              progress = progress;
              timestamp = now;
            })
            s.progress_buffer;
    })

-- The flush of the buffer.
unfoldable pub flush : Store → Store
unfolding merge
flush s = record s {
  update_progress = merge s.update_progress s.progress_buffer;
  progress_buffer = [];
  progress_flush_timer = none;
}

-- A result of an update; the id from before the update, if it is given.
pub record UpdateResult : Type 0 where
  pub container_id : Text
  pub original_container_id : Option Text
  pub succeeded : Bool

abbrev pub completed_keys : Text → List UpdateResult → List Text
completed_keys agent_id results =
    map (λ r. key_of agent_id (or_else r.original_container_id r.container_id)) results

-- The progress of the containers that the results name goes, shown and buffered.
unfoldable pub clear_completed : Text → List UpdateResult → Store → Store
unfolding without_keys delete_keys
clear_completed agent_id results s =
    let ks = completed_keys agent_id results in
    record s {
      progress_buffer = delete_keys ks s.progress_buffer;
      update_progress = without_keys ks s.update_progress;
    }

-- The toast of an update.
unfoldable pub tell_complete : List UpdateResult → ℕ → Store → Store
unfolding add_toast
tell_complete results now s =
    let all_success = every (λ r. r.succeeded) results in
    add_toast (if all_success then success else error) (update_done all_success (length results))
      now s

-- UPDATE_COMPLETE
unfoldable pub update_complete : Text → List UpdateResult → ℕ → Store → Store
unfolding clear_completed tell_complete
update_complete agent_id results now s =
    let told = tell_complete results now (clear_completed agent_id results s) in
    record told { timers = Timers.set_timeout (clear_agent agent_id) (now + 5000) told.timers }

-- The fallback, 5 s after an update.
unfoldable pub force_clear : Text → Store → Store
unfolding without_agent
force_clear agent_id s = record s {
  update_progress = without_agent agent_id s.update_progress;
  progress_buffer = without_agent agent_id s.progress_buffer;
}

unfoldable pub update_agent_status : Text → Text → Store → Store
update_agent_status agent_id status s = record s {
  agent_statuses = JsMap.set agent_id status s.agent_statuses;
}

unfoldable pub set_agent_checking : Text → Bool → Store → Store
set_agent_checking agent_id checking s = record s {
  checking_agents =
      if checking
      then JsMap.add agent_id s.checking_agents
      else JsMap.remove agent_id s.checking_agents;
}
