-- ===== src/Orchestrator/Told.antt =====
-- What an orchestrated update tells the agent (controller/src/scheduler/orchestrator.ts,
-- executeOrchestratedUpdate).
use mathlib.Core.Path.{subst}
use mathlib.Core.List.{Perm, Nodup, append-nil, append_assoc}
use mathlib.Core.List.Perm
use watchwarden.Base.{
  ℕ, ◌≡◌, refl, sym, ap, ◌∙◌, Bool, false, Option, none, some, List, [], ◌∷◌, ◌++◌, map, Text, text,
  or_else, is_empty, keep,
}
use watchwarden.Orchestrator.{
  Container, UpdateBatch, Message, queued, update, update_sequential, ids, is_selected,
  execute_orchestrated_update, queue_each, queue_all, send_batches,
}
use watchwarden.Orchestrator.Selected.{batched, docker_ids, resolve_update_batches-Perm}

abbrev in_sequence : List (List Text × Bool × ℕ) → List Text
in_sequence [] = []
in_sequence (b ∷ bs) = b.0 ++ in_sequence bs

-- The containers that messages tell the agent to update.
abbrev pub told : List Message → List Text
told [] = []
told (queued id name ∷ ms) = told ms
told (update container_ids strategy ∷ ms) = container_ids ++ told ms
told (update_sequential batches strategy ∷ ms) = in_sequence batches ++ told ms

told-queue_each : (xs ys : List Text) (ms : List Message) → told (queue_each xs ys ++ ms) ≡ told ms
unfolding queue_each
told-queue_each [] ys ms = refl
told-queue_each (x ∷ xs) [] ms = refl
told-queue_each (x ∷ xs) (y ∷ ys) ms = told-queue_each xs ys ms

told-queue_all : (bs : List UpdateBatch) (ms : List Message) → told (queue_all bs ++ ms) ≡ told ms
unfolding queue_all
told-queue_all [] ms = refl
told-queue_all (b ∷ bs) ms =
    ap told (append_assoc (queue_each b.container_ids b.container_names) (queue_all bs) ms)
    ∙ told-queue_each b.container_ids b.container_names (queue_all bs ++ ms)
    ∙ told-queue_all bs ms

in_sequence-batches :
    (bs : List UpdateBatch)
    → in_sequence (map (λ b. (b.container_ids, b.wait_for_healthy, 120)) bs) ≡ batched bs
in_sequence-batches [] = refl
in_sequence-batches (b ∷ bs) = ap (λ l. b.container_ids ++ l) (in_sequence-batches bs)

-- Where there are batches, their containers are told.
told-send_batches :
    (b : UpdateBatch) (bs : List UpdateBatch) (container_ids : List Text) (strategy : Text)
    → told (send_batches (b ∷ bs) container_ids strategy ∷ []) ≡ batched (b ∷ bs)
unfolding send_batches
told-send_batches b [] container_ids strategy = refl
told-send_batches b (c ∷ bs) container_ids strategy =
    append-nil _ ∙ in_sequence-batches (b ∷ c ∷ bs)

told-batches :
    (u : List Container) (bs : List UpdateBatch) (container_ids : List Text) (strategy : Text)
    → is_empty u ≡ false
    → Perm (batched bs) (docker_ids u)
    → Perm (told (queue_all bs ++ send_batches bs container_ids strategy ∷ [])) (docker_ids u)
told-batches [] bs container_ids strategy e p = cc
told-batches (c ∷ u) [] container_ids strategy e p = cc (Perm.nil-eq p)
told-batches u (b ∷ bs) container_ids strategy e p =
    subst (λ l. Perm l (docker_ids u))
      (sym (
        told-queue_all (b ∷ bs) (send_batches (b ∷ bs) container_ids strategy ∷ [])
        ∙ told-send_batches b bs container_ids strategy))
      p

-- An orchestrated update ends; where it names a container of the agent, what it tells the agent to
-- update is, with distinct ids, each container that it names, exactly once, and no other.
pub execute_orchestrated_update-told :
    (all_containers : List Container) (container_ids : List Text) (strategy : Option Text)
    → Nodup (ids all_containers)
    → is_empty (keep (is_selected container_ids) all_containers) ≡ false
    → (ms : List Message) × (execute_orchestrated_update all_containers container_ids strategy
        ≡ some ms)
      × Perm (told ms) (docker_ids (keep (is_selected container_ids) all_containers))
unfolding execute_orchestrated_update
execute_orchestrated_update-told all_containers container_ids strategy n e =
    let (bs, r, p) = resolve_update_batches-Perm all_containers container_ids n in
    (
      _,
      ap
          (λ o. elim o [
            | none ↦ none
            | some bs ↦ some (
                queue_all bs
                ++ send_batches bs container_ids (or_else strategy (text "stop-first")) ∷ [])
          ])
          r,
      told-batches (keep (is_selected container_ids) all_containers) bs container_ids
          (or_else strategy (text "stop-first")) e p,
    )
