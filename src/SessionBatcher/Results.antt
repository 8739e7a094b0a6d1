-- ===== src/SessionBatcher/Results.antt =====
-- What the notifications and the pending batch hold for one agent (controller/src/notifications/session-batcher.ts,
-- addUpdateResult and flushUpdateBatch).
use mathlib.Core.List.{append-nil, append_assoc}
use watchwarden.Base.{
  ◌≡◌, refl, not, ◌&&◌, Option, none, some, List, [], ◌∷◌, ◌++◌, arith, Text, text, ◌===◌, ===_iff,
  if◌then◌else◌, or_else,
}
use watchwarden.JsMap
use watchwarden.JsMap.{Map, get-set}
use watchwarden.SessionBatcher.{
  Success, Failure, AgentData, UpdateBatch, Event, update_success, update_failed, update_available,
  Batcher, succ_agents, fail_agents, update_events, no_results, Call, adds_update_result,
}

-- No key stands twice.
abbrev pub Distinct {ℓ} : {V : Type ℓ} → Map V → Type ℓ
Distinct [] = Unit
Distinct ((k, v) ∷ m) = (JsMap.get k m ≡ none) × Distinct m

pub set-Distinct {ℓ} :
    {V : Type ℓ} (k : Text) (v : V) (m : Map V) → Distinct m → Distinct (JsMap.set k v m)
unfolding JsMap.set JsMap.get
set-Distinct k v [] h = (refl, tt)
set-Distinct k v ((j, w) ∷ m) (n, h) =
    ground (arith, ===_iff j k, ===_iff k j, get-set k j v m, set-Distinct k v m h)

-- What a list of groups holds for one agent.
of_agent {ℓ} : {X : Type ℓ} → Text → List (Text × List X) → List X
of_agent a [] = []
of_agent a ((b, xs) ∷ rest) = if b === a then xs ++ of_agent a rest else of_agent a rest

unfoldable pub data_of : Text → Map AgentData → AgentData
unfolding no_results
data_of a m = or_else (JsMap.get a m) no_results

-- The results of an agent in the notifications sent so far.
unfoldable pub sent_successes : Text → List Event → List Success
unfolding of_agent
sent_successes a [] = []
sent_successes a (update_success groups ∷ es) = of_agent a groups ++ sent_successes a es
sent_successes a (_ ∷ es) = sent_successes a es

unfoldable pub sent_failures : Text → List Event → List Failure
unfolding of_agent
sent_failures a [] = []
sent_failures a (update_failed groups ∷ es) = of_agent a groups ++ sent_failures a es
sent_failures a (_ ∷ es) = sent_failures a es

unfoldable pub pending_data : Text → Option UpdateBatch → AgentData
unfolding data_of
pending_data a none = no_results
pending_data a (some batch) = data_of a batch.agents

-- The results of an agent that were sent or are pending, oldest first.
unfoldable pub successes_of : Text → Batcher → List Success
unfolding sent_successes pending_data
successes_of a s = sent_successes a s.dispatched ++ (pending_data a s.update_batch).successes

unfoldable pub failures_of : Text → Batcher → List Failure
unfolding sent_failures pending_data
failures_of a s = sent_failures a s.dispatched ++ (pending_data a s.update_batch).failures

-- The results for an agent that the calls report, in the form in which they are sent.
unfoldable pub reported_successes : Text → List Call → List Success
reported_successes a [] = []
reported_successes a (adds_update_result agent_id r now ∷ cs) =
    if (agent_id === a) && r.success
    then record { name = r.container_name; image = or_else r.image []; duration_ms = r.duration_ms }
      ∷ reported_successes a cs
    else reported_successes a cs
reported_successes a (_ ∷ cs) = reported_successes a cs

unfoldable pub reported_failures : Text → List Call → List Failure
reported_failures a [] = []
reported_failures a (adds_update_result agent_id r now ∷ cs) =
    if (agent_id === a) && not r.success
    then record { name = r.container_name; error = or_else r.error (text "unknown") }
      ∷ reported_failures a cs
    else reported_failures a cs
reported_failures a (_ ∷ cs) = reported_failures a cs

pub sent_successes-append :
    (a : Text) (es fs : List Event)
    → sent_successes a (es ++ fs) ≡ sent_successes a es ++ sent_successes a fs
unfolding sent_successes
sent_successes-append a [] fs = refl
sent_successes-append a (update_success g ∷ es) fs =
    simp (sent_successes-append a es fs, append_assoc)
sent_successes-append a (update_failed g ∷ es) fs = sent_successes-append a es fs
sent_successes-append a (update_available g ∷ es) fs = sent_successes-append a es fs

pub sent_failures-append :
    (a : Text) (es fs : List Event)
    → sent_failures a (es ++ fs) ≡ sent_failures a es ++ sent_failures a fs
unfolding sent_failures
sent_failures-append a [] fs = refl
sent_failures-append a (update_failed g ∷ es) fs = simp (sent_failures-append a es fs, append_assoc)
sent_failures-append a (update_success g ∷ es) fs = sent_failures-append a es fs
sent_failures-append a (update_available g ∷ es) fs = sent_failures-append a es fs

of_agent-succ_agents :
    (a : Text) (m : Map AgentData)
    → Distinct m
    → of_agent a (succ_agents m) ≡ (data_of a m).successes
unfolding of_agent succ_agents data_of JsMap.get
of_agent-succ_agents a [] h = refl
of_agent-succ_agents a ((k, d) ∷ m) (n, h) =
    ground (arith, ===_iff k a, of_agent-succ_agents a m h, append-nil d.successes)

of_agent-fail_agents :
    (a : Text) (m : Map AgentData)
    → Distinct m
    → of_agent a (fail_agents m) ≡ (data_of a m).failures
unfolding of_agent fail_agents data_of JsMap.get
of_agent-fail_agents a [] h = refl
of_agent-fail_agents a ((k, d) ∷ m) (n, h) =
    ground (arith, ===_iff k a, of_agent-fail_agents a m h, append-nil d.failures)

pub sent_successes-update_events :
    (a : Text) (m : Map AgentData)
    → Distinct m
    → sent_successes a (update_events m) ≡ (data_of a m).successes
unfolding sent_successes update_events
sent_successes-update_events a m h =
    ground (arith, of_agent-succ_agents a m h, append-nil (of_agent a (succ_agents m)))

pub sent_failures-update_events :
    (a : Text) (m : Map AgentData)
    → Distinct m
    → sent_failures a (update_events m) ≡ (data_of a m).failures
unfolding sent_failures update_events
sent_failures-update_events a m h =
    ground (arith, of_agent-fail_agents a m h, append-nil (of_agent a (fail_agents m)))
