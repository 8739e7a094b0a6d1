-- ===== src/Hub/UpdateResult/Tests.antt =====
-- The theorems on an update's results at concrete inputs.
use watchwarden.Base.{
  ◌≡◌, true, false, not, ◌&&◌, none, some, List, [], ◌∷◌, ◌++◌, map, any, text, if◌then◌else◌,
}
use watchwarden.JsMap
use watchwarden.SessionBatcher
use watchwarden.Hub.AutoUpdate.{Container}
use watchwarden.Hub.UpdateResult.{
  UpdateResultItem, Payload, Policy, State, Message, update_result, results_of,
}
use watchwarden.Hub.UpdateResult.Stored.{
  ids_of, row_after, names_row, is_rollback_of, IsRowAfter, update_result-rows,
}
use watchwarden.Hub.UpdateResult.Delivered.{monitored, checked, successes, update_result-follows_up}
use watchwarden.Base.{Text}

abbrev nginx : Container
nginx = record {
  id = text "ng";
  docker_id = text "c1";
  name = text "nginx";
  image = text "nginx:1.25";
  current_digest = some (text "sha256:1");
  latest_digest = some (text "sha256:2");
  has_update = true;
  update_first_seen = some 500;
  diff = none;
  is_stateful = false;
  policy = none;
  label_policy = none;
  update_level = none;
  label_update_level = none;
}

abbrev updated : UpdateResultItem
updated = record {
  container_id = text "c1";
  container_name = text "nginx";
  success = true;
  old_digest = some (text "sha256:1");
  new_digest = some (text "sha256:2");
  old_image = none;
  new_image = none;
  error = none;
  duration_ms = 1200;
}

-- One container is updated, another one is not.
abbrev payload : Payload
payload = record {
  results = some (
      updated
      ∷ record updated { container_id = text "c2"; success = false; error = some (text "no space") }
      ∷ []);
  container_id = none;
  container_name = none;
  success = none;
  old_digest = none;
  new_digest = none;
  old_image = none;
  new_image = none;
  error = none;
  duration_ms = none;
  is_rollback = none;
  auto_rolled_back = false;
  rollback_reason = none;
}

abbrev state : State
state = record {
  hub = record {
    containers = nginx ∷ [];
    pending_diffs = (text "c1", some (text "+1 -1")) ∷ [];
    auto_update_in_flight = text "a1" ∷ [];
    sent = [];
  };
  update_log = [];
  statuses = [];
  completed = [];
  batcher = SessionBatcher.initial;
  audit_log = [];
  dispatched = [];
  messages = [];
}

abbrev policy : Policy
policy = record { auto_rollback_enabled = true; stability_window_seconds = 300 }

abbrev after : State
after = update_result (text "a1") (some (text "host")) policy 1000 payload state

update_result-rows_example :
    (after.hub.containers
      ≡ map (row_after (is_rollback_of payload) (results_of payload)) (nginx ∷ []))
    × IsRowAfter
        (any (names_row nginx) (results_of payload))
        (is_rollback_of payload)
        nginx
        (row_after (is_rollback_of payload) (results_of payload) nginx)
update_result-rows_example =
    update_result-rows (text "a1") (some (text "host")) policy 1000 payload state nginx

update_result-follows_up_example :
    (ms : List (Text × Message)) × (after.messages ≡ [] ++ ms)
    × (monitored (text "a1") ms ≡ (
        if not (is_rollback_of payload) && policy.auto_rollback_enabled
        then map (λ r. (r.container_id, r.old_digest)) (successes (results_of payload))
        else []))
    × (checked (text "a1") ms
        ≡ (if is_rollback_of payload then ids_of (successes (results_of payload)) else []))
update_result-follows_up_example =
    update_result-follows_up (text "a1") (some (text "host")) policy 1000 payload state
