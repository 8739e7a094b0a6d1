-- ===== src/UiStore/Tests.antt =====
-- The theorems of the browser's store at concrete inputs.
use watchwarden.Base.{
  ◌-◌, ◌≡◌, refl, true, false, not, ◌&&◌, ◌||◌, none, some, List, [], ◌∷◌, arith, text, ltb,
  if◌then◌else◌, All,
}
use watchwarden.JsMap
use watchwarden.Semver.{starts_with}
use watchwarden.UiStore.{
  Store, UpdateResult, UpdateProgress, completed_keys, update_complete, heartbeat_received, flush,
  is_of, info, up_to_date,
}
use watchwarden.UiStore.Progress.{is_absent, update_complete_lem, heartbeat_received_lem}
use watchwarden.UiStore.Toasts.{Call, add, remove, updated, run, IsValid, run-few_toasts}

abbrev pulling : UpdateProgress
pulling = record {
  step = text "pulling";
  container_name = text "web";
  progress = none;
  timestamp = 1000;
}

abbrev store : Store
store = record {
  agent_statuses = [];
  checking_agents = [];
  update_progress = (text "a1:c1", pulling) ∷ (text "a1:c2", pulling) ∷ [];
  toasts = [];
  toast_counter = 0;
  toast_timers = [];
  progress_buffer = (text "a1:c1", pulling) ∷ [];
  progress_flush_timer = some 0;
  timers = record { next = 1; live = [] };
}

abbrev results : List UpdateResult
results =
    record { container_id = text "new"; original_container_id = some (text "c1"); succeeded = true }
    ∷ []

update_complete_lem_example :
    let after = update_complete (text "a1") results 2000 store in
    let completed = JsMap.member (text "a1:c1") (completed_keys (text "a1") results) in
    (JsMap.get (text "a1:c1") after.update_progress
      ≡ (if completed then none else JsMap.get (text "a1:c1") store.update_progress))
    × (JsMap.get (text "a1:c1") after.progress_buffer
        ≡ (if completed then none else JsMap.get (text "a1:c1") store.progress_buffer))
    × ((not completed || is_absent (JsMap.get (text "a1:c1") (flush after).update_progress)) ≡ true)
update_complete_lem_example = update_complete_lem (text "a1") results 2000 store (text "a1:c1")

other_agent : is_of (text "a2") (text "a1:c1") ≡ false
unfolding is_of starts_with
other_agent = refl

heartbeat_received_lem_test :
    All
      (λ e. (is_of (text "a2") e.0 && ltb e.1.timestamp (90000 - 60000)) ≡ false)
      (heartbeat_received (text "a2") 90000 store).update_progress
    × (JsMap.get (text "a1:c1") (heartbeat_received (text "a2") 90000 store).update_progress
        ≡ JsMap.get (text "a1:c1") store.update_progress)
heartbeat_received_lem_test =
    heartbeat_received_lem (text "a2") 90000 store (text "a1:c1") other_agent

abbrev calls : List Call
calls = add info up_to_date 0 ∷ updated (text "a1") results 10 ∷ remove 1 ∷ []

run-few_toasts_test : IsValid (run calls store)
run-few_toasts_test = run-few_toasts calls store (record { few = omega arith; given = tt })
