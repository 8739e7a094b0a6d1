-- ===== src/Orchestrator/Batches.antt =====
-- The batches of an update, by priority (controller/src/scheduler/orchestrator.ts,
-- resolveUpdateBatches).
use watchwarden.Base.{
  ℕ, ◌<◌, ◌≡◌, refl, sym, ap, ◌∙◌, Bool, true, false, not, Option, none, some, List, [], ◌∷◌,
  if◌then◌else◌, is_empty, keep, any, Text, All,
}
use watchwarden.Orchestrator.{
  Container, UpdateBatch, groups_of, batches_of, resolve_update_batches, topological_sort,
  is_selected, labelled, single_batch,
}
use watchwarden.Orchestrator.Contents.{visit_all_sorted}
use watchwarden.Orchestrator.Groups.{Group, IsAscending, groups_of_lem}

-- Every batch but the last waits.
abbrev pub AllButLastWait : List UpdateBatch → Type 0
AllButLastWait [] = Unit
AllButLastWait (b ∷ bs) = (b.wait_for_healthy ≡ not (is_empty bs)) × AllButLastWait bs

is_empty-batches_of : (gs : List Group) → is_empty (batches_of gs) ≡ is_empty gs
unfolding batches_of
is_empty-batches_of [] = refl
is_empty-batches_of (g ∷ gs) = refl

batches_of-AllButLastWait : (gs : List Group) → AllButLastWait (batches_of gs)
unfolding batches_of
batches_of-AllButLastWait [] = tt
batches_of-AllButLastWait (g ∷ gs) =
    (ap not (sym (is_empty-batches_of gs)), batches_of-AllButLastWait gs)

batches_of-All {κ} :
    (P : ℕ → Type κ) (gs : List Group)
    → All (λ g. P g.0) gs
    → All (λ b. P b.priority) (batches_of gs)
unfolding batches_of
batches_of-All P [] h = tt
batches_of-All P (g ∷ gs) (p, h) = (p, batches_of-All P gs h)

batches_of-IsAscending :
    (gs : List Group) → IsAscending (λ g. g.0) gs → IsAscending (λ b. b.priority) (batches_of gs)
unfolding batches_of
batches_of-IsAscending [] a = tt
batches_of-IsAscending (g ∷ gs) (k, a) =
    (batches_of-All (λ q. g.0 < q) gs k, batches_of-IsAscending gs a)

-- What the batches promise.
abbrev pub AreBatches : List UpdateBatch → Type 0
AreBatches bs = IsAscending (λ b. b.priority) bs × AllButLastWait bs

unsorted-AreBatches :
    (b c : Bool) (u : List Container) (o : List UpdateBatch)
    → AreBatches o
    → (bs : List UpdateBatch) × ((if b
          then some []
          else if c
          then some (single_batch u ∷ [])
          else some o)
        ≡ some bs)
      × AreBatches bs
unfolding single_batch
unsorted-AreBatches true c u o h = ([], refl, (tt, tt))
unsorted-AreBatches false true u o h = (single_batch u ∷ [], refl, ((tt, tt), (refl, tt)))
unsorted-AreBatches false false u o h = (o, refl, h)

-- For any containers, dependencies and requested ids the batches are found; their priorities
-- ascend, no two the same, and every batch but the last waits until its containers are healthy.
pub resolve_update_batches-AreBatches :
    (all_containers : List Container) (container_ids : List Text)
    → (bs : List UpdateBatch) × (resolve_update_batches all_containers container_ids ≡ some bs)
      × AreBatches bs
unfolding resolve_update_batches topological_sort
resolve_update_batches-AreBatches all_containers container_ids =
    let to_update = keep (is_selected container_ids) all_containers in
    let (w, e, m, n) = visit_all_sorted to_update all_containers in
    let (a, p, q) = groups_of_lem w.result in
    let o = batches_of (groups_of w.result) in
    let (bs, f, h) =
      unsorted-AreBatches (is_empty to_update) (not (any labelled to_update)) to_update o (
        batches_of-IsAscending (groups_of w.result) a,
        batches_of-AllButLastWait (groups_of w.result),
      ) in
    (
      bs,
      ap
            (λ v.
              if is_empty to_update
              then some []
              else if not (any labelled to_update)
              then some (single_batch to_update ∷ [])
              else elim (elim v as (λ u. Option (List Container)) [
                | none ↦ none
                | some w ↦ some w.result
              ]) [ none ↦ none | some cs ↦ some (batches_of (groups_of cs)) ])
            e
          ∙ f,
      h,
    )
