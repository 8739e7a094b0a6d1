-- ===== src/PruneService/Tests.antt =====
-- The theorems of the prune service at concrete inputs.
use watchwarden.Base.{
  ◌≤◌, ◌≡◌, ◌↔◌, refl, true, false, none, some, List, [], ◌∷◌, ◌++◌, Text, text, ◌===◌, All,
}
use watchwarden.JsMap
use watchwarden.PruneService.Data.{
  PruneOptions, ok, err, undefined, natural, boolean, Agent, Reply, resolved, Service,
  prune_started,
}
use watchwarden.PruneService.{
  parse_prune_options, start_prune, commit_run, settle, initial, commits, settles, Reachable, here,
  next,
}
use watchwarden.PruneService.Options.{NaturalOr, BooleanOr, parse_prune_options_iff}
use watchwarden.PruneService.Exclusion.{IsExclusive, Reachable-IsExclusive, start_prune-twice}
use watchwarden.PruneService.Runs.{IsComplete, Reachable-IsComplete}

abbrev host : Agent
host = record { id = text "a1"; name = text "host"; is_online = true }

abbrev opts : PruneOptions
opts = record { keep_previous = 1; dry_run = false; include_stopped = false }

abbrev online : List Text
online = text "a1" ∷ []

abbrev reply : Reply
reply = resolved (record {
  images_removed = some 3;
  containers_removed = none;
  space_reclaimed = some 1000;
  errors = none;
})

parse_prune_options_iff_test :
    (parse_prune_options (natural 2) undefined (boolean true)
      ≡ ok (record { keep_previous = 2; dry_run = false; include_stopped = true }))
    ↔ (NaturalOr (natural 2) 1 2
        × (2 ≤ 10)
        × BooleanOr undefined false
        × BooleanOr (boolean true) true)
parse_prune_options_iff_test =
    parse_prune_options_iff (natural 2) undefined (boolean true)
      (record { keep_previous = 2; dry_run = false; include_stopped = true })

abbrev running : Service
running =
    commit_run opts (text "run") (text "r1") 1000
      (host ∷ record { id = text "a2"; name = text "other"; is_online = false } ∷ []) online initial

abbrev finished : Service
finished = settle 0 reply (text "r2") running

Reachable-finished : Reachable finished
Reachable-finished =
    next
      (next here (
        commits opts (text "run") (text "r1") 1000
          (host ∷ record { id = text "a2"; name = text "other"; is_online = false } ∷ []) online))
      (settles 0 reply (text "r2"))

Reachable-IsExclusive_example : IsExclusive finished
Reachable-IsExclusive_example = Reachable-IsExclusive Reachable-finished

Reachable-IsComplete_example : All IsComplete finished.events
Reachable-IsComplete_example = Reachable-IsComplete Reachable-finished

abbrev started : Service
started = record {
  active = text "a1" ∷ [];
  run = none;
  runs = [];
  executions = record { agent = host; opts = opts; request_id = text "r1"; loop = none } ∷ [];
  legacy = (text "a1", text "r1") ∷ [];
  events = prune_started (text "a1") false ∷ [];
}

is_started : start_prune (some host) online opts (text "r1") initial ≡ ok started
unfolding start_prune initial JsMap.member JsMap.add JsMap.set ◌===◌
is_started = refl

start_prune-twice_test :
    (agent : Agent) × (some host ≡ some agent)
    × (agent.is_online ≡ true)
    × (JsMap.member agent.id online ≡ true)
    × (JsMap.member agent.id initial.active ≡ false)
    × (started.active ≡ initial.active ++ agent.id ∷ [])
    × (start_prune (some host) online opts (text "r2") started ≡ err 409)
start_prune-twice_test =
    start_prune-twice (some host) online opts opts (text "r1") (text "r2") initial started
      is_started
