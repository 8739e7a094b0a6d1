-- ===== src/SessionBatcher/Tests.antt =====
-- The theorems of the batcher at concrete inputs.
use mathlib.Core.Option
use watchwarden.Base.{
  ℕ, ◌+◌, ◌≤◌, ◌≡◌, ◌⊎◌, refl, true, false, not, none, some, List, [], ◌∷◌, ◌++◌, arith, text, keep,
  length, All,
}
use watchwarden.JsMap
use watchwarden.JsMap.{Map}
use watchwarden.SessionBatcher.{
  Container, UpdateResultItem, Batcher, Call, initial, run, clear_pending_timers, prune_notified,
  is_stale, dedup, dedup_key, dispatch_check_results, expect_check_results, flush_check_batch,
  adds_update_result, fires, flush_update,
}
use watchwarden.SessionBatcher.Results.{
  sent_successes, sent_failures, reported_successes, reported_failures,
}
use watchwarden.SessionBatcher.Delivery.{run_delivers_all}
use watchwarden.SessionBatcher.Dedup.{IsFresh, IsRemembered, dedup_lem, prune_notified_lem}
use watchwarden.SessionBatcher.Overwrite.{expect_check_results_loses}

abbrev web : Container
web = record { name = text "web"; image = text "nginx (1.26)" }

abbrev pulled : UpdateResultItem
pulled = record {
  container_id = text "c1";
  container_name = text "web";
  image = none;
  success = true;
  error = none;
  duration_ms = 1200;
}

abbrev calls : List Call
calls =
    adds_update_result (text "host") pulled 1000
    ∷ fires (record { id = 1; due = 31000; callback = flush_update })
    ∷ adds_update_result (text "host") (record pulled { success = false }) 40000
    ∷ []

run_delivers_all_example :
    (sent_successes (text "host") (clear_pending_timers (run calls initial)).dispatched
      ≡ reported_successes (text "host") calls)
    × (sent_failures (text "host") (clear_pending_timers (run calls initial)).dispatched
        ≡ reported_failures (text "host") calls)
run_delivers_all_example = run_delivers_all (text "host") calls

abbrev old_and_new : Map ℕ
old_and_new = (text "a:web", 1000) ∷ (text "a:db", 90000000) ∷ []

prune_notified_lem_test :
    (length (prune_notified 90000000 old_and_new) ≤ 10000)
    × All (λ e. 90000000 ≤ e.1 + 86400000) (prune_notified 90000000 old_and_new)
    × ((older : Map ℕ) × (keep (λ e. not (is_stale 90000000 e)) old_and_new
          ≡ older ++ prune_notified 90000000 old_and_new)
        × ((older ≡ []) ⊎ (length (prune_notified 90000000 old_and_new) ≡ 10000)))
prune_notified_lem_test = prune_notified_lem 90000000 old_and_new

dedup_lem_test :
    let (fresh, seen) = dedup (text "a") 90000000 (web ∷ []) old_and_new in
    All (IsFresh (text "a") old_and_new) fresh
    × All (IsRemembered (text "a") seen) (web ∷ [])
    × ((dedup (text "a") 90000001 (web ∷ []) seen).0 ≡ [])
    × ((JsMap.get (text "a:db") old_and_new ≡ none)
        ⊎ (JsMap.get (text "a:db") seen ≡ JsMap.get (text "a:db") old_and_new))
dedup_lem_test = dedup_lem (text "a") 90000000 90000001 (web ∷ []) old_and_new (text "a:db")

abbrev quiet : Batcher
quiet = record {
  update_batch = none;
  check_batch = none;
  notified_updates = [];
  timers = record { next = 0; live = [] };
  dispatched = [];
}

nothing_known :
    JsMap.get (dedup_key (text "a1") web.name) (prune_notified 1000 quiet.notified_updates) ≡ none
unfolding prune_notified JsMap.get
nothing_known = refl

one_known :
    length (
      keep
        (λ e. not (is_stale 50000 e))
        (JsMap.set
          (dedup_key (text "a1") web.name)
          1000
          (prune_notified 1000 quiet.notified_updates)))
    ≤ 10000
unfolding prune_notified JsMap.set is_stale
one_known = omega arith

expect_check_results_loses_example :
    let first = dispatch_check_results (text "host") (web ∷ []) (some (text "a1")) 1000 quiet in
    let again =
      dispatch_check_results
        (text "host")
        (web ∷ [])
        (some (text "a1"))
        50000
        (expect_check_results 3 2000 first) in
    (Option.map (λ b. b.agents) first.check_batch
      ≡ some (record { agent_name = text "host"; containers = web ∷ [] } ∷ []))
    × ((flush_check_batch again).dispatched ≡ quiet.dispatched)
expect_check_results_loses_example =
    expect_check_results_loses (text "host") (text "a1") web 1000 50000 3 2000 quiet refl
      nothing_known (omega arith) one_known
