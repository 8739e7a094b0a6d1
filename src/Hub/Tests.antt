-- ===== src/Hub/Tests.antt =====
-- The theorems of the hub at concrete inputs, and tests.
use mathlib.Core.List.{Perm}
use watchwarden.Base.{
  ◌+◌, ◌*◌, ◌≤◌, ◌≡◌, refl, Bool, true, false, none, some, List, [], ◌∷◌, ◌++◌, arith, Text, text,
  ◌===◌, every, take,
}
use watchwarden.JsMap
use watchwarden.Semver.{starts_with, extract_tag, semver_matches_level, extract_version_parts}
use watchwarden.JsMap.Members.{Nodup-of, are_distinct}
use watchwarden.Hub.TokenBucket.{answers, full}
use watchwarden.Hub.TokenBucket.Rate.{passed, total, answers_rate, answers_steady}
use watchwarden.Hub.Requests
use watchwarden.Hub.Requests.{Call, wait, answer, timeout, close, no_requests}
use watchwarden.Hub.Requests.Settled.{settled_ids}
use watchwarden.Hub.Requests.Once.{requested}
use watchwarden.Hub.Requests.Drain.{all_timeouts, run-drains}
use watchwarden.Hub.AutoUpdate
use watchwarden.Hub.AutoUpdate.{Config, CheckResultItem, Container, check_result}
use watchwarden.Hub.AutoUpdate.InFlight.{checked, ended, updates, ends, run-updates}
use watchwarden.Hub.AutoUpdate.InFlight
use watchwarden.Hub.AutoUpdate.FirstSeen.{Check, since}
use watchwarden.Hub.AutoUpdate.FirstSeen
use watchwarden.Hub.Registration.{
  Agent, Registry, RegisterPayload, authenticate_agent, verifies, insert_recovered, is_bcrypt,
}
use watchwarden.Hub.Registration.Accepted.{
  IsCandidate, authenticate_agent_sound, recovered_authenticates,
}
use watchwarden.Hub.Registration.Recovery
use watchwarden.Hub.Registration.Recovery.{Arrival}
use watchwarden.Hub.Connections
use watchwarden.Hub.Connections.{
  registered, heard, socket_closed, swept, register, on_close, new_hub,
}
use watchwarden.Hub.Connections.Statuses.{on_close-register}

answers_rate_example :
    1000 * passed (answers (0 ∷ 10 ∷ 500 ∷ []) full) ≤ full + 30 * total (0 ∷ 10 ∷ 500 ∷ [])
answers_rate_example = answers_rate (0 ∷ 10 ∷ 500 ∷ []) full

answers_steady_test : every (λ ok. ok) (answers (34 ∷ 40 ∷ []) 0) ≡ true
answers_steady_test = answers_steady (34 ∷ 40 ∷ []) 0 (omega arith, (omega arith, tt))

-- Two requests, one of which is answered, and one that the agent is not there for.
abbrev calls : List Call
calls =
    wait (text "r1") 15000 true
    ∷ wait (text "r2") 15000 true
    ∷ wait (text "r3") 15000 false
    ∷ answer (text "r2") (text "logs")
    ∷ []

requested_distinct : are_distinct (requested calls) ≡ true
unfolding JsMap.member ◌===◌
requested_distinct = refl

run-drains_example : Perm (requested calls) (
    settled_ids (
      Requests.run
        (all_timeouts (Requests.run calls no_requests).timers.live)
        (Requests.run calls no_requests)))
run-drains_example = run-drains calls (Nodup-of (requested calls) requested_distinct)

abbrev nginx : Container
nginx = record {
  id = text "c1";
  docker_id = text "d1";
  name = text "nginx";
  image = text "nginx:1.25.0";
  current_digest = none;
  latest_digest = none;
  has_update = false;
  update_first_seen = none;
  diff = none;
  is_stateful = false;
  policy = none;
  label_policy = none;
  update_level = some (text "minor");
  label_update_level = none;
}

abbrev nginx_update : CheckResultItem
nginx_update = record {
  container_id = text "c1";
  container_name = none;
  has_update = true;
  current_digest = some (text "sha256:a");
  latest_digest = some (text "nginx:1.25.1");
  diff = none;
  check_failed = false;
}

abbrev automatic : Config
automatic = record {
  auto_update = true;
  auto_update_global = false;
  policy = record { min_age_hours = 0; strategy = text "stop-first" };
  global_update_level = [];
}

abbrev hub : AutoUpdate.Hub
hub = record { containers = nginx ∷ []; pending_diffs = []; auto_update_in_flight = []; sent = [] }

check_test :
    (check_result 1000 (text "agent") automatic (nginx_update ∷ []) hub).sent
    ≡ AutoUpdate.check_complete (text "agent") 1 0
      ∷ AutoUpdate.update (text "agent") (text "c1" ∷ []) (text "stop-first")
      ∷ []
unfolding check_result AutoUpdate.eligible AutoUpdate.level_permits JsMap.member AutoUpdate.passes
    AutoUpdate.holds_back ◌===◌ AutoUpdate.old_enough extract_tag semver_matches_level
    extract_version_parts
check_test = refl

abbrev events : List InFlight.Event
events =
    checked (text "agent") 1000 automatic (nginx_update ∷ [])
    ∷ checked (text "agent") 2000 automatic (nginx_update ∷ [])
    ∷ ended (text "agent")
    ∷ []

run-updates_example :
    updates (text "agent") (InFlight.run events hub).sent ≤ 1 + ends (text "agent") events
run-updates_example = run-updates (text "agent") events hub refl

abbrev checks : List Check
checks =
    record { now = 1000; config = automatic; item = nginx_update }
    ∷ record { now = 5000; config = automatic; item = nginx_update }
    ∷ []

since_test : since checks ≡ some 1000
unfolding since
since_test = refl

-- A stand-in for bcrypt, whose hashes are marked tokens.
abbrev compares : Text → Text → Bool
compares token hash = hash === (text "$2b$" ++ token)

abbrev digest : Text → Text
digest token = token

abbrev token : Text
token = text "0123456789abcdef"

abbrev local : Agent
local = record {
  id = text "a1";
  name = text "local";
  hostname = text "host";
  token_hash = text "$2b$" ++ token;
  token_prefix = some (take 8 token);
  recovery_registered = false;
}

local_authenticates :
    authenticate_agent compares digest digest token (local ∷ []) ≡ some (text "a1")
unfolding authenticate_agent ◌===◌ starts_with
local_authenticates = refl

authenticate_agent_sound_example :
    (a : Agent) × (a.id ≡ text "a1")
    × IsCandidate (take 8 token) (local ∷ []) a
    × (verifies compares digest digest token a ≡ true)
authenticate_agent_sound_example =
    authenticate_agent_sound compares digest digest token (local ∷ []) (text "a1")
      local_authenticates

abbrev payload : RegisterPayload
payload = record { token = token; hostname = text "host"; agent_name = some (text "edge") }

abbrev registry : Registry
registry = record { agents = local ∷ []; recovery_count = 3 }

hash_is_bcrypt :
    (is_bcrypt (text "$2b$" ++ token) ≡ true) × (compares token (text "$2b$" ++ token) ≡ true)
unfolding is_bcrypt ◌===◌ starts_with
hash_is_bcrypt = (refl, refl)

recovered_authenticates_test :
    authenticate_agent compares digest digest token
      (insert_recovered payload (text "a2") (text "$2b$" ++ token) (text "edge") registry).agents
    ≡ some (text "a2")
recovered_authenticates_test =
    recovered_authenticates compares digest digest payload (text "a2") (text "$2b$" ++ token)
      (text "edge") registry hash_is_bcrypt.0 hash_is_bcrypt.1

abbrev arrivals : List Arrival
arrivals =
    record {
      payload = payload;
      active = true;
      agent_id = text "a2";
      token_hash = text "$2b$" ++ token;
    }
    ∷ []

abbrev full_registry : Registry
full_registry = record { agents = local ∷ []; recovery_count = 20 }

abbrev connection_events : List Connections.Event
connection_events =
    registered (text "a1") 7 1000 ∷ registered (text "a1") 8 2000 ∷ socket_closed (text "a1") 7 ∷ []

on_close-register_test :
    (on_close (text "a1") 7 (register (text "a1") 8 2000 new_hub)
      ≡ register (text "a1") 8 2000 new_hub)
    × (JsMap.get
          (text "a1")
          (on_close (text "a1") 7 (register (text "a1") 8 2000 new_hub)).connections
        ≡ some (record { ws = 8; last_seen = 2000 }))
on_close-register_test = on_close-register (text "a1") 7 8 2000 new_hub (omega arith)
