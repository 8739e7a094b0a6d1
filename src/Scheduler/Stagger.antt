-- ===== src/Scheduler/Stagger.antt =====
-- The staggered check of all agents (controller/src/scheduler/engine.ts, runGlobalCheckStaggered).
use watchwarden.Base.{
  ℕ, zero, suc, ◌+◌, ◌*◌, ◌≡◌, refl, sym, ap, ◌∙◌, true, not, List, [], ◌∷◌, map, arith, Text, ltb,
  if◌then◌else◌, length, All, All-keep_test,
}
use watchwarden.JsMap
use watchwarden.Scheduler.{Scheduler, targets, stagger, run_global_check_staggered}

-- `delay`, `delay + 2000`, and so on: the number of times.
abbrev pub delays : ℕ → ℕ → List ℕ
delays zero i = []
delays (suc n) i = 2000 * i ∷ delays n (i + 1)

delay_cons : (d i : ℕ) (xs ys : List ℕ) → d ≡ 2000 * i → xs ≡ ys → d ∷ xs ≡ 2000 * i ∷ ys
delay_cons d i xs ys e f = ap (λ x. x ∷ xs) e ∙ ap (λ l. 2000 * i ∷ l) f

stagger-delays :
    (ids : List Text) (d i : ℕ)
    → d ≡ 2000 * i
    → (map (λ t. t.1) (stagger d ids) ≡ ids)
      × (map (λ t. t.0) (stagger d ids) ≡ delays (length ids) i)
unfolding stagger
stagger-delays [] d i e = (refl, refl)
stagger-delays (x ∷ ids) d i e =
    let (a, b) = stagger-delays ids (d + 2000) (i + 1) (omega (arith, e)) in
    (ap (λ l. x ∷ l) a, (delay_cons d i (map (λ t. t.0) (stagger (d + 2000) ids)) _ e b))

length-stagger : (d : ℕ) (ids : List Text) → length (stagger d ids) ≡ length ids
unfolding stagger
length-stagger d [] = refl
length-stagger d (x ∷ ids) = ap suc (length-stagger (d + 2000) ids)

-- The agents that are checked are the online ones without a schedule of their own; they are checked
-- in their order, 2000 ms apart, the first at once; and the notification batcher is told to expect
-- as many results, if there are any.
pub run_global_check_staggered_lem :
    (online_ids : List Text) (s : Scheduler)
    → let after =
        run_global_check_staggered online_ids (record s { expected = []; timeouts = [] }) in
      let n = length after.timeouts in
      (map (λ t. t.1) after.timeouts ≡ targets online_ids s)
      × All (λ id. not (JsMap.member id (JsMap.keys s.agent_tasks)) ≡ true) (targets online_ids s)
      × (map (λ t. t.0) after.timeouts ≡ delays n 0)
      × (after.expected ≡ (if ltb 0 n then n ∷ [] else []))
unfolding run_global_check_staggered targets
run_global_check_staggered_lem online_ids s =
    let ids = targets online_ids s in
    let (a, b) = stagger-delays ids 0 0 refl in
    let n = length-stagger 0 ids in
    (
      a,
      All-keep_test (λ id. not (JsMap.member id (JsMap.keys s.agent_tasks))) online_ids,
      b ∙ ap (λ k. delays k 0) (sym n),
      ap (λ k. if ltb 0 k then k ∷ [] else []) (sym n),
    )
