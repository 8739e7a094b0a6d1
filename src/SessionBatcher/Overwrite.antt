-- ===== src/SessionBatcher/Overwrite.antt =====
-- A batch that is pending when a check of many agents begins (expectCheckResults in
-- controller/src/notifications/session-batcher.ts) is dropped.
use mathlib.Core.List.{append-nil}
use watchwarden.Base.{
  Option-cases, inl, inr, ℕ, ◌+◌, ◌-◌, ◌≤◌, ◌≡◌, refl, ap, ◌∙◌, true, not, Option, none, some, List,
  [], ◌∷◌, ◌++◌, arith, Text, ltb, leb, if_cases, keep, length, is_some, ◌&&◌,
}
use mathlib.Core.Option
use watchwarden.JsMap
use watchwarden.JsMap.{Map, get-set}
use watchwarden.Timers.{Timers, clear_timeout}
use watchwarden.SessionBatcher.{
  Callback, Container, AgentUpdates, CheckBatch, Batcher, is_stale, prune_notified, dedup,
  dedup_key, dedup_ttl_ms, max_dedup_entries, check_events, flush_check_batch, flush_if_complete,
  expect_check_results, dispatch_check_results, check_window, add_report,
}
use watchwarden.SessionBatcher.Dedup.{dedup_old, get-set_self}

none_is_not_some : (o : Option ℕ) → o ≡ none → is_some o ≡ true → ⊥
none_is_not_some o e h = ground arith

-- A flush would send nothing.
abbrev IsQuiet : Batcher → Type 0
IsQuiet s = check_events s.check_batch ≡ []

flush-IsQuiet :
    (s : Batcher)
    → IsQuiet s
    → ((flush_check_batch s).dispatched ≡ s.dispatched) × IsQuiet (flush_check_batch s)
unfolding flush_check_batch check_events
flush-IsQuiet s q = (ap (λ x. s.dispatched ++ x) q ∙ append-nil s.dispatched, refl)

flush_if_complete-IsQuiet :
    (batch : CheckBatch) (s : Batcher)
    → IsQuiet s
    → ((flush_if_complete batch s).dispatched ≡ s.dispatched) × IsQuiet (flush_if_complete batch s)
unfolding flush_if_complete
flush_if_complete-IsQuiet batch s q =
    if_cases (λ t. (t.dispatched ≡ s.dispatched) × IsQuiet t)
      (ltb 0 batch.expected_agent_count
        && leb batch.expected_agent_count (length batch.received_agent_ids))
      (flush-IsQuiet (record s { timers = clear_timeout batch.timer s.timers }) q) (refl, q)

-- A key that is remembered and not stale is not pruned, if the cap is not met.
prune_keeps :
    (now : ℕ) (m : Map ℕ) (k : Text) (ts : ℕ)
    → JsMap.get k m ≡ some ts
    → now ≤ ts + dedup_ttl_ms
    → JsMap.get k (keep (λ e. not (is_stale now e)) m) ≡ some ts
unfolding JsMap.get is_stale
prune_keeps now [] k ts g h = cc
prune_keeps now ((j, w) ∷ m) k ts g h = ground (arith, prune_keeps now m k ts)

prune_small :
    (now : ℕ) (m : Map ℕ)
    → length (keep (λ e. not (is_stale now e)) m) ≤ max_dedup_entries
    → prune_notified now m ≡ keep (λ e. not (is_stale now e)) m
unfolding prune_notified
prune_small now m h =
    let z : length (keep (λ e. not (is_stale now e)) m) - max_dedup_entries ≡ 0 = omega arith in
    rw z

-- The first report of a container: it waits in a new batch.
module _ (agent_name id : Text) (c : Container) (now : ℕ) (s : Batcher) where
  abbrev first : Batcher
  first = dispatch_check_results agent_name (c ∷ []) (some id) now s

  abbrev reported : List AgentUpdates
  reported = record { agent_name = agent_name; containers = c ∷ [] } ∷ []

  first_report :
      s.check_batch ≡ none
      → JsMap.get (dedup_key id c.name) (prune_notified now s.notified_updates) ≡ none
      → (first.dispatched ≡ s.dispatched)
        × (first.notified_updates
            ≡ JsMap.set (dedup_key id c.name) now (prune_notified now s.notified_updates))
        × (Option.map (λ b. b.agents) first.check_batch ≡ some reported)
  unfolding dispatch_check_results check_window add_report flush_if_complete dedup
  first_report e new = ground arith

empty_report_quiet :
    (agent_name id : Text) (later : ℕ) (b : Option CheckBatch) (t : Timers Callback)
    → check_events b ≡ []
    → check_events (some (add_report agent_name [] (some id) (check_window b later t).0)) ≡ []
unfolding check_events add_report check_window
empty_report_quiet agent_name id later none t q = refl
empty_report_quiet agent_name id later (some batch) t q = ground arith

-- A report whose containers are all remembered, to a batch that holds none.
dispatch-IsQuiet :
    (agent_name id : Text) (c : Container) (later : ℕ) (s : Batcher)
    → IsQuiet s
    → is_some (JsMap.get (dedup_key id c.name) (prune_notified later s.notified_updates)) ≡ true
    → let t = dispatch_check_results agent_name (c ∷ []) (some id) later s in
      (t.dispatched ≡ s.dispatched) × IsQuiet t
unfolding dispatch_check_results dedup
dispatch-IsQuiet agent_name id c later s q r =
    let seen = prune_notified later s.notified_updates in
    let (window, timers) = check_window s.check_batch later s.timers in
    let batch = add_report agent_name [] (some id) window in
    elim (Option-cases (JsMap.get (dedup_key id c.name) seen)) [
      | inl missing ↦ absurd (none_is_not_some _ missing r)
      | inr (ts, old) ↦
          rw (dedup_old id later c [] seen old, dedup)
            (flush_if_complete-IsQuiet batch
              (record s { check_batch = some batch; notified_updates = seen; timers = timers })
              (empty_report_quiet agent_name id later s.check_batch s.timers q))
    ]

-- A container that waits in a batch when a check of many agents begins is not notified: neither by
-- the batch that takes its place nor, for 24 hours, when its agent reports it again, since its key
-- is remembered. (The cap on remembered keys is not met, and the agent's id is not empty.)
pub expect_check_results_loses :
    (agent_name id : Text) (c : Container) (now later count start : ℕ) (s : Batcher)
    → s.check_batch ≡ none
    → JsMap.get (dedup_key id c.name) (prune_notified now s.notified_updates) ≡ none
    → later ≤ now + 86400000
    → length (
        keep
          (λ e. not (is_stale later e))
          (JsMap.set (dedup_key id c.name) now (prune_notified now s.notified_updates)))
      ≤ 10000
    → let first = dispatch_check_results agent_name (c ∷ []) (some id) now s in
      let again =
        dispatch_check_results agent_name
          (c ∷ [])
          (some id)
          later
          (expect_check_results count start first) in
      (Option.map (λ b. b.agents) first.check_batch
        ≡ some (record { agent_name = agent_name; containers = c ∷ [] } ∷ []))
      × ((flush_check_batch again).dispatched ≡ s.dispatched)
unfolding expect_check_results check_events
expect_check_results_loses agent_name id c now later count start s e new young small =
    let k = dedup_key id c.name in
    let pruned = prune_notified now s.notified_updates in
    let (sent, seen, waiting) = first_report agent_name id c now s e new in
    let begun =
      expect_check_results count start
        (dispatch_check_results agent_name (c ∷ []) (some id) now s) in
    let kept = prune_keeps later (JsMap.set k now pruned) k now (get-set_self k now pruned) young in
    let known : is_some (JsMap.get k (prune_notified later begun.notified_updates)) ≡ true =
      rw (seen, prune_small later (JsMap.set k now pruned) small, kept) refl in
    let (p, q) = dispatch-IsQuiet agent_name id c later begun refl known in
    (waiting, (flush-IsQuiet _ q).0 ∙ p ∙ sent)
