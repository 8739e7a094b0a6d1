-- ===== src/Hub/Requests/Drain.antt =====
-- Every request ends, at the latest when its timer fires (controller/src/ws/hub.ts, sendAndWait).
use mathlib.Core.Path.{subst}
use mathlib.Core.List.{Perm, Nodup}
use watchwarden.Base.{
  ◌≡◌, refl, ap, ◌∙◌, some, List, [], ◌∷◌, ◌++◌, map, Text, ◌==◌, ==_iff, if◌then◌else◌, find, keep,
  not,
}
use watchwarden.JsMap
use watchwarden.Timers
use watchwarden.Timers.{Timer}
use watchwarden.Hub.Requests.{
  Requests, Call, timeout, settle, fire_timer, fire, step, run, no_requests,
}
use watchwarden.Hub.Requests.Pairs.{pairs, AllDiffer}
use watchwarden.Hub.Requests.Settled.{IsValid, Accounts, settled_ids, pending_ids, keep_first}
use watchwarden.Hub.Requests.Once.{fire-Accounts, run-Accounts, requested, no_requests-Accounts}

-- All live timers fire, in the order in which they were set.
abbrev pub all_timeouts : List (Timer Text) → List Call
all_timeouts l = map (λ t. timeout t.id) l

find_head : (x : Timer Text) (l : List (Timer Text)) → find (λ y. y.id == x.id) (x ∷ l) ≡ some x
find_head x l =
    ap (λ b. if b then some x else find (λ y. y.id == x.id) l) ((==_iff x.id x.id).1 refl)

live-fire :
    (x : Timer Text) (l : List (Timer Text)) (r : Requests)
    → AllDiffer r.timers.live
    → r.timers.live ≡ x ∷ l
    → (fire x.id r).timers.live ≡ l
unfolding fire fire_timer settle Timers.clear_timeout
live-fire x l r d e =
    ap (λ o. (fire_timer o r).timers.live) (ap (λ m. find (λ y. y.id == x.id) m) e ∙ find_head x l)
    ∙ ap (λ m. keep (λ y. not (y.id == x.id)) m) e
    ∙ keep_first x l (subst AllDiffer e d).0

run-Drained :
    (l : List (Timer Text)) (made : List Text) (r : Requests)
    → Accounts made r
    → r.timers.live ≡ l
    → Accounts made (run (all_timeouts l) r) × ((run (all_timeouts l) r).timers.live ≡ [])
unfolding run step fire
run-Drained [] made r a e = (a, e)
run-Drained (x ∷ l) made r a e =
    run-Drained l made (fire x.id r)
      (fire-Accounts x.id made r (find (λ y. y.id == x.id) r.timers.live) refl a)
      (live-fire x l r a.valid.differ e)

drained_pending : (r : Requests) → IsValid r → r.timers.live ≡ [] → pending_ids r ≡ []
unfolding JsMap.keys
drained_pending r v e = ap JsMap.keys (v.agree ∙ ap pairs e)

-- After any sequence of requests with distinct ids, answers, timers that fire and connections that
-- end, once the timers that are still live have fired, every request is settled, exactly once.
pub run-drains :
    (cs : List Call)
    → Nodup (requested cs)
    → Perm
        (requested cs)
        (settled_ids (run (all_timeouts (run cs no_requests).timers.live) (run cs no_requests)))
run-drains cs n =
    let r = run cs no_requests in
    let (a, e) =
      run-Drained r.timers.live (requested cs) r
        (run-Accounts cs [] no_requests no_requests-Accounts n) refl in
    let s = run (all_timeouts r.timers.live) r in
    subst (λ l. Perm (requested cs) (l ++ settled_ids s)) (drained_pending s a.valid e) a.perm
