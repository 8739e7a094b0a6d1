-- ===== src/Hub/UpdateResult.antt =====
-- An update's results (controller/src/ws/hub.ts, the case UPDATE_RESULT, with insertUpdateLog and
-- insertUpdateLogAndDigests of controller/src/db/queries.ts): the log, the rows of the containers, the
-- notifications, and what the agent is told to do next. Times other than the batcher's, the images of
-- database errors and log lines are left out; the database is taken to answer.
mod Data
pub use Data.*
pub mod Stored
pub mod Logged
pub mod Delivered
mod Tests
use watchwarden.Base.{
  ℕ, Bool, true, false, not, Option, none, some, List, [], ◌∷◌, ◌++◌, map, Text, text, ◌===◌,
  is_truthy, text_or, if◌then◌else◌, or_else, is_empty, keep,
}
use watchwarden.JsMap
use watchwarden.JsMap.{Map}
use watchwarden.Hub.AutoUpdate
use watchwarden.Hub.AutoUpdate.{Container, update_where}
use watchwarden.SessionBatcher
use watchwarden.SessionBatcher.{Batcher, add_update_result}

-- `payload.results`, or the single result.
unfoldable pub results_of : Payload → List UpdateResultItem
results_of p = or_else p.results (
    record {
      container_id = or_else p.container_id [];
      container_name = or_else p.container_name [];
      success = or_else p.success false;
      old_digest = p.old_digest;
      new_digest = p.new_digest;
      old_image = p.old_image;
      new_image = p.new_image;
      error = p.error;
      duration_ms = or_else p.duration_ms 0;
    }
    ∷ [])

-- `this.pendingDiffs.get(id) ?? null`
unfoldable pub diff_of : Text → Map (Option Text) → Option Text
diff_of id diffs = or_else (JsMap.get id diffs) none

-- `r.success && r.newDigest`
unfoldable pub is_stored : UpdateResultItem → Bool
is_stored r = if r.success then is_truthy r.new_digest else false

unfoldable pub status_of : (is_rollback : Bool) → UpdateResultItem → Status
unfolding is_stored
status_of is_rollback r =
    if is_stored r then (if is_rollback then rolled_back else success) else failed

unfoldable pub log_entry : Text → Bool → Option Text → UpdateResultItem → UpdateLog
unfolding status_of
log_entry agent_id is_rollback diff r = record {
  agent_id = agent_id;
  container_id = r.container_id;
  container_name = r.container_name;
  old_digest = r.old_digest;
  new_digest = r.new_digest;
  old_image = r.old_image;
  new_image = r.new_image;
  status = status_of is_rollback r;
  error = r.error;
  duration_ms = r.duration_ms;
  diff = diff;
}

-- `latest_digest IS NOT NULL AND latest_digest != …`
unfoldable pub differs : Option Text → Text → Bool
differs none digest = false
differs (some latest) digest = not (latest === digest)

-- The row of a container that runs the image with the digest from now on.
unfoldable pub write_digest : (is_rollback : Bool) → Text → Container → Container
unfolding differs
write_digest true digest c = record c {
  current_digest = some digest;
  has_update = differs c.latest_digest digest;
}
write_digest false digest c = record c {
  current_digest = some digest;
  latest_digest = some digest;
  has_update = false;
}

unfoldable pub store_digest :
    (is_rollback : Bool) → UpdateResultItem → List Container → List Container
unfolding is_stored update_where write_digest
store_digest is_rollback r rows =
    if is_stored r
    then update_where r.container_id (write_digest is_rollback (or_else r.new_digest [])) rows
    else rows

-- One round of the loop that stores the results.
unfoldable pub store_result : Text → Bool → UpdateResultItem → State → State
unfolding diff_of log_entry store_digest
store_result agent_id is_rollback r s =
    let hub = s.hub in
    record s {
      hub = record hub {
        pending_diffs = JsMap.delete r.container_id hub.pending_diffs;
        containers = store_digest is_rollback r hub.containers;
      };
      update_log =
          s.update_log
          ++ log_entry agent_id is_rollback (diff_of r.container_id hub.pending_diffs) r ∷ [];
    }

unfoldable pub store_results : Text → Bool → List UpdateResultItem → State → State
unfolding store_result
store_results agent_id is_rollback [] s = s
store_results agent_id is_rollback (r ∷ rs) s =
    store_results agent_id is_rollback rs (store_result agent_id is_rollback r s)

-- A result as the batcher takes it.
unfoldable pub notified_item : UpdateResultItem → SessionBatcher.UpdateResultItem
notified_item r = record {
  container_id = r.container_id;
  container_name = r.container_name;
  image = none;
  success = r.success;
  error = r.error;
  duration_ms = r.duration_ms;
}

unfoldable pub add_results : Text → ℕ → List UpdateResultItem → Batcher → Batcher
unfolding add_update_result notified_item
add_results name now [] b = b
add_results name now (r ∷ rs) b =
    add_results name now rs (add_update_result name (notified_item r) now b)

-- The two blocks under `if (autoRolledBack)`.
unfoldable pub report_rollback : Text → Text → Option Text → List UpdateResultItem → State → State
report_rollback agent_id name reason results s = record s {
  audit_log =
      s.audit_log
      ++ record {
        agent_id = agent_id;
        rollback_reason = reason;
        containers = map (λ r. r.container_name) results;
      }
        ∷ [];
  dispatched =
      s.dispatched
      ++ record {
        agent_name = name;
        containers =
            map
              (λ n. (
                n,
                text "Auto-rolled back: "
                    ++ text_or reason (text "Container unhealthy after update"),
              ))
              (keep (λ n. not (is_empty n)) (map (λ r. r.container_name) results));
      }
        ∷ [];
}

unfoldable pub check_again : List UpdateResultItem → List Message
check_again [] = []
check_again (r ∷ rs) = check (map (λ x. x.container_id) (r ∷ rs)) ∷ []

unfoldable pub monitor : Policy → UpdateResultItem → Message
monitor policy r =
    monitor_health r.container_id r.container_name policy.stability_window_seconds r.old_digest

-- What the agent is told after a rollback, and after an update.
unfoldable pub follow_ups : Bool → Policy → List UpdateResultItem → List Message
unfolding check_again monitor
follow_ups true policy results = check_again (keep (λ r. r.success) results)
follow_ups false policy results =
    if policy.auto_rollback_enabled
    then map (monitor policy) (keep (λ r. r.success) results)
    else []

-- Messages, with the agent that they are for.
abbrev pub addressed : Text → List Message → List (Text × Message)
addressed agent_id [] = []
addressed agent_id (m ∷ ms) = (agent_id, m) ∷ addressed agent_id ms

-- The case UPDATE_RESULT; `name` is the agent's in the database.
unfoldable pub update_result : Text → Option Text → Policy → ℕ → Payload → State → State
unfolding results_of store_results add_results report_rollback follow_ups
update_result agent_id name policy now p s =
    let hub = s.hub in
    let is_rollback = or_else p.is_rollback false in
    let results = results_of p in
    let display_name = or_else name agent_id in
    let cleared = record s {
      hub = record hub { auto_update_in_flight = JsMap.remove agent_id hub.auto_update_in_flight };
    } in
    let stored = store_results agent_id is_rollback results cleared in
    let told = record stored {
      statuses = JsMap.set agent_id true stored.statuses;
      completed = stored.completed ++ (agent_id, results) ∷ [];
      batcher = add_results display_name now results stored.batcher;
    } in
    let reported =
      if p.auto_rolled_back
      then report_rollback agent_id display_name p.rollback_reason results told
      else told in
    record reported {
      messages = reported.messages ++ addressed agent_id (follow_ups is_rollback policy results);
    }
