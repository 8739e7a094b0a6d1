-- ===== src/Scheduler/Orphans.antt =====
-- No task is left running without its scheduler (controller/src/scheduler/engine.ts).
use mathlib.Core.Path.{subst}
use watchwarden.Base.{
  All-and, true_is_not_false, ℕ, ◌+◌, ◌<◌, ◌≡◌, refl, sym, ap, ◌∙◌, Bool, true, false, not, Option,
  none, some, List, [], ◌∷◌, ◌++◌, arith, Text, ◌===◌, ===_iff, ===_refl, ◌==◌, ==_iff,
  if◌then◌else◌, Bool-cases, inl, inr, keep, All, All-append, All-mono, All-keep, All-keep_test,
}
use watchwarden.JsMap
use watchwarden.JsMap.{Map}
use watchwarden.Scheduler.{
  Task, Job, global_check, agent_check, log_retention, Scheduler, stop_task, stop_optional,
  schedule, create_global_task, create_agent_task, stop_global, drop_agent_task,
}

unfoldable pub refers_to : Option ℕ → ℕ → Bool
refers_to none id = false
refers_to (some j) id = j == id

unfoldable pub held_by : Scheduler → Job → ℕ → Bool
unfolding refers_to
held_by s global_check id = refers_to s.global_task id
held_by s (agent_check a) id = refers_to (JsMap.get a s.agent_tasks) id
held_by s log_retention id = refers_to s.cleanup_task id

-- A field of the scheduler holds the task.
unfoldable pub holds : Scheduler → Task → Bool
unfolding held_by
holds s t = held_by s t.job t.id

-- Every task that runs is held, for its job, and numbers are not reused. So there is at most one
-- task for each agent, and one for all.
pub record IsValid (s : Scheduler) : Type 0 where
  pub held : All (λ t. holds s t ≡ true) s.live
  pub below : All (λ t. t.id < s.next) s.live

pub stop_optional-All {κ} :
    (P : Task → Type κ) (o : Option ℕ) (l : List Task)
    → All P l
    → All (λ t. P t × (refers_to o t.id ≡ false)) (stop_optional o l)
unfolding stop_optional stop_task refers_to
stop_optional-All P none l h = All-mono _ _ l (λ t p. (p, refl)) h
stop_optional-All P (some id) l h =
    All-mono _ _ (keep (λ t. not (t.id == id)) l) (λ t (p, q). (p, ground arith))
      (All-and _ _ _ (All-keep P (λ t. not (t.id == id)) l h)
        (All-keep_test (λ t. not (t.id == id)) l))

-- The tasks that a state keeps, and one that it adds.
add-IsValid :
    (s r : Scheduler) (live : List Task) (e : Text) (job : Job)
    → All (λ t. (holds r t ≡ true) × (t.id < s.next)) live
    → r.next ≡ s.next + 1
    → r.live ≡ live ++ record { id = s.next; expression = e; job = job } ∷ []
    → held_by r job s.next ≡ true
    → IsValid r
unfolding holds
add-IsValid s r live e job h n l k = record {
  held =
      subst (All (λ t. holds r t ≡ true)) (sym l)
        (All-append _ live _ (All-mono _ _ live (λ t p. p.0) h) (k, tt));
  below = subst (All (λ t. t.id < r.next)) (sym l) (
      All-append _ live _ (All-mono _ _ live (λ t p. omega (arith, p.1, n)) h)
        (omega (arith, n), tt));
}

global-held :
    (s r : Scheduler) (job : Job) (id : ℕ)
    → r.agent_tasks ≡ s.agent_tasks
    → r.cleanup_task ≡ s.cleanup_task
    → held_by s job id ≡ true
    → refers_to s.global_task id ≡ false
    → held_by r job id ≡ true
unfolding held_by
global-held s r global_check id a c h n = cc
global-held s r (agent_check b) id a c h n = ap (λ m. refers_to (JsMap.get b m) id) a ∙ h
global-held s r log_retention id a c h n = ap (λ o. refers_to o id) c ∙ h

pub update_global-IsValid :
    (e : Text) (s : Scheduler) → IsValid s → IsValid (create_global_task e (stop_global s))
unfolding create_global_task stop_global schedule held_by refers_to holds
update_global-IsValid e s v =
    let r = create_global_task e (stop_global s) in
    add-IsValid s r (stop_optional s.global_task s.live) e global_check
      (All-mono _ _ _ (λ t ((h, b), n). (global-held s r t.job t.id refl refl h n, b))
        (stop_optional-All (λ t. (holds s t ≡ true) × (t.id < s.next)) s.global_task s.live
          (All-and _ _ s.live v.held v.below)))
      refl refl ((==_iff s.next s.next).1 refl)

other_holds :
    (a b : Text) (m : Map ℕ) (id : ℕ)
    → refers_to (JsMap.get b m) id ≡ true
    → refers_to (JsMap.get a m) id ≡ false
    → refers_to (if a === b then none else JsMap.get b m) id ≡ true
other_holds a b m id h n = elim (Bool-cases (a === b)) [
  | inl same ↦ absurd (
      true_is_not_false h
        (subst (λ x. refers_to (JsMap.get x m) id ≡ false) ((===_iff a b).0 same) n))
  | inr other ↦ ap (λ c. refers_to (if c then none else JsMap.get b m) id) other ∙ h
]

drop-held :
    (a : Text) (s : Scheduler) (job : Job) (id : ℕ)
    → held_by s job id ≡ true
    → refers_to (JsMap.get a s.agent_tasks) id ≡ false
    → held_by (drop_agent_task a s) job id ≡ true
unfolding held_by drop_agent_task
drop-held a s global_check id h n = h
drop-held a s log_retention id h n = h
drop-held a s (agent_check b) id h n =
    ap (λ o. refers_to o id) (JsMap.get-delete a b s.agent_tasks)
    ∙ other_holds a b s.agent_tasks id h n

pub drop-IsValid : (a : Text) (s : Scheduler) → IsValid s → IsValid (drop_agent_task a s)
unfolding drop_agent_task holds
drop-IsValid a s v =
    let kept =
      stop_optional-All (λ t. (holds s t ≡ true) × (t.id < s.next)) (JsMap.get a s.agent_tasks)
        s.live (All-and _ _ s.live v.held v.below) in
    record {
      held = All-mono _ _ _ (λ t ((h, b), n). drop-held a s t.job t.id h n) kept;
      below = All-mono _ _ _ (λ t ((h, b), n). b) kept;
    }

new_holds :
    (a b : Text) (m : Map ℕ) (new id : ℕ)
    → JsMap.get a m ≡ none
    → refers_to (JsMap.get b m) id ≡ true
    → refers_to (if a === b then some new else JsMap.get b m) id ≡ true
unfolding refers_to
new_holds a b m new id n h = elim (Bool-cases (a === b)) [
  | inl same ↦ absurd (
      true_is_not_false
        (subst (λ x. refers_to (JsMap.get x m) id ≡ true) (sym ((===_iff a b).0 same)) h)
        (ap (λ o. refers_to o id) n))
  | inr other ↦ ap (λ c. refers_to (if c then some new else JsMap.get b m) id) other ∙ h
]

create-held :
    (a e : Text) (s : Scheduler) (job : Job) (id : ℕ)
    → JsMap.get a s.agent_tasks ≡ none
    → held_by s job id ≡ true
    → held_by (create_agent_task a e s) job id ≡ true
unfolding held_by create_agent_task schedule refers_to
create-held a e s global_check id n h = h
create-held a e s log_retention id n h = h
create-held a e s (agent_check b) id n h =
    ap (λ o. refers_to o id) (JsMap.get-set a b s.next s.agent_tasks)
    ∙ new_holds a b s.agent_tasks s.next id n h

new_held :
    (a e : Text) (s : Scheduler)
    → refers_to (JsMap.get a (create_agent_task a e s).agent_tasks) s.next ≡ true
unfolding create_agent_task schedule refers_to
new_held a e s =
    ap (λ o. refers_to o s.next)
      (JsMap.get-set a a s.next s.agent_tasks
        ∙ ap (λ b. if b then some s.next else JsMap.get a s.agent_tasks) (===_refl a))
    ∙ (==_iff s.next s.next).1 refl

pub create-IsValid :
    (a e : Text) (s : Scheduler)
    → JsMap.get a s.agent_tasks ≡ none
    → IsValid s
    → IsValid (create_agent_task a e s)
unfolding create_agent_task schedule holds held_by
create-IsValid a e s n v =
    add-IsValid s (create_agent_task a e s) s.live e (agent_check a)
      (All-mono _ _ s.live (λ t (h, b). (create-held a e s t.job t.id n h, b))
        (All-and _ _ s.live v.held v.below))
      refl refl (new_held a e s)

pub dropped : (a : Text) (s : Scheduler) → JsMap.get a (drop_agent_task a s).agent_tasks ≡ none
unfolding drop_agent_task
dropped a s =
    JsMap.get-delete a a s.agent_tasks
    ∙ ap (λ b. if b then none else JsMap.get a s.agent_tasks) (===_refl a)
