-- ===== src/Hub/UpdateResult/Logged.antt =====
-- What the results of an update leave in the log (controller/src/ws/hub.ts, the loop of the case
-- UPDATE_RESULT).
use watchwarden.Base.{Bool, ◌&&◌, Option, List, map, Text, if◌then◌else◌, is_truthy}
use watchwarden.JsMap
use watchwarden.JsMap.{Map}
use watchwarden.Hub.UpdateResult.{
  UpdateResultItem, UpdateLog, Status, success, failed, rolled_back, log_entry, diff_of,
}

-- The entries of results, each with the diff that is pending for its container.
abbrev pub entries : Text → Bool → Map (Option Text) → List UpdateResultItem → List UpdateLog
entries agent_id is_rollback diffs =
    map (λ r. log_entry agent_id is_rollback (diff_of r.container_id diffs) r)

abbrev pub expected_status : Bool → UpdateResultItem → Status
expected_status is_rollback r =
    if r.success && is_truthy r.new_digest
    then if is_rollback then rolled_back else success
    else failed
