-- ===== src/Orchestrator/Selected.antt =====
-- The batches of an update hold the containers that are to be updated (controller/src/scheduler/orchestrator.ts,
-- resolveUpdateBatches).
use mathlib.Core.Path.{subst}
use mathlib.Core.List.{
  Perm, Nodup, Mem, mem-cons, Nodup-cons, append-nil, map-append, Mem-prop, perm_ext_iff_of_Nodup,
}
use mathlib.Core.List.Perm
use mathlib.Core.Logic.Or
use watchwarden.Base.{
  suc, ◌≡◌, refl, sym, ap, ◌∙◌, Bool, false, not, Option, none, some, List, [], ◌∷◌, ◌++◌, map,
  arith, Text, ◌===◌, ===_iff, ===_refl, if◌then◌else◌, if_cases, All, All-keep, All-mono, All-and,
  Bool-cases, inl, inr, is_empty, keep, any, length, leb, ap,
}
use watchwarden.JsMap
use watchwarden.Orchestrator.{
  Container, UpdateBatch, nothing_visited, ids, scope_of, topological_sort, insert,
  sort_by_priority, groups_of, batches_of, is_selected, labelled, single_batch,
  resolve_update_batches,
}
use watchwarden.Orchestrator.Contents.{visit_all_sorted}
use watchwarden.Orchestrator.Groups.{Group, members, groups_of_lem}
use watchwarden.Orchestrator.Visited.{Keeps, name_map_from-InMap, visit_all-Keeps}

-- The ids of all containers of the batches.
abbrev pub batched : List UpdateBatch → List Text
batched [] = []
batched (b ∷ bs) = b.container_ids ++ batched bs

abbrev pub docker_ids : List Container → List Text
docker_ids = map (λ c. c.docker_id)

-- The docker id of the container with an id.
docker_of : List Container → Text → Text
docker_of [] x = []
docker_of (c ∷ cs) x = if c.id === x then c.docker_id else docker_of cs x

abbrev HasDockerId : List Container → Container → Type 0
HasDockerId all c = docker_of all c.id ≡ c.docker_id

not_mem-All :
    (x : Text) (cs : List Container) → (Mem x (ids cs) → ⊥) → All (λ c. (x === c.id) ≡ false) cs
not_mem-All x [] h = tt
not_mem-All x (c ∷ cs) h = (
  elim (Bool-cases (x === c.id)) [
    | inl same ↦ absurd (h (mem-cons.1 (Or.inl ((===_iff x c.id).0 same))))
    | inr other ↦ other
  ],
  not_mem-All x cs (λ m. h (mem-cons.1 (Or.inr m))),
)

HasDockerId-All : (all : List Container) → Nodup (ids all) → All (HasDockerId all) all
unfolding docker_of
HasDockerId-All [] n = tt
HasDockerId-All (c ∷ cs) n = (
  rw (===_refl c.id) refl,
  All-mono _ _ cs (λ d (p, q). rw p q)
      (All-and _ _ cs (not_mem-All c.id cs (Nodup-cons.0 n).0)
        (HasDockerId-All cs (Nodup-cons.0 n).1)),
)

docker_ids-ids :
    (all cs : List Container)
    → All (HasDockerId all) cs
    → docker_ids cs ≡ map (docker_of all) (ids cs)
docker_ids-ids all [] h = refl
docker_ids-ids all (c ∷ cs) (p, h) = ground (arith, docker_ids-ids all cs h)

-- Containers with the same ids have the same docker ids.
docker_ids-Perm :
    (all cs ds : List Container)
    → All (HasDockerId all) cs
    → All (HasDockerId all) ds
    → Perm (ids cs) (ids ds)
    → Perm (docker_ids cs) (docker_ids ds)
docker_ids-Perm all cs ds h k p =
    rw (docker_ids-ids all cs h, docker_ids-ids all ds k) (Perm.map (docker_of all) p)

insert-All :
    (P : Container → Type 0) (c : Container) (cs : List Container)
    → P c
    → All P cs
    → All P (insert c cs)
unfolding insert
insert-All P c [] p h = (p, tt)
insert-All P c (d ∷ ds) p (q, h) =
    if_cases (All P) (leb c.update_priority d.update_priority) (p, (q, h))
      (q, insert-All P c ds p h)

sort_by_priority-All :
    (P : Container → Type 0) (cs : List Container) → All P cs → All P (sort_by_priority cs)
unfolding sort_by_priority
sort_by_priority-All P [] h = tt
sort_by_priority-All P (c ∷ cs) (p, h) =
    insert-All P c (sort_by_priority cs) p (sort_by_priority-All P cs h)

Mem-ids_keep :
    (p : Container → Bool) (x : Text) (cs : List Container)
    → Mem x (ids (keep p cs))
    → Mem x (ids cs)
Mem-ids_keep p x [] m = m
Mem-ids_keep p x (c ∷ cs) m =
    let behind = λ (n : Mem x (ids (keep p cs))). mem-cons.1 (Or.inr (Mem-ids_keep p x cs n)) in
    if_cases (λ l. Mem x (ids l) → Mem x (ids (c ∷ cs))) (p c)
      (λ m. Or.elim Mem-prop (mem-cons.0 m) (λ e. mem-cons.1 (Or.inl e)) behind) behind m

Nodup-keep : (p : Container → Bool) (cs : List Container) → Nodup (ids cs) → Nodup (ids (keep p cs))
Nodup-keep p [] n = n
Nodup-keep p (c ∷ cs) n =
    if_cases (λ l. Nodup (ids l)) (p c)
      (Nodup-cons.1
        ((λ m. (Nodup-cons.0 n).0 (Mem-ids_keep p c.id cs m)), Nodup-keep p cs (Nodup-cons.0 n).1))
      (Nodup-keep p cs (Nodup-cons.0 n).1)

batched-batches_of : (gs : List Group) → batched (batches_of gs) ≡ docker_ids (members gs)
unfolding batches_of
batched-batches_of [] = refl
batched-batches_of ((p, cs) ∷ gs) =
    ap (λ l. docker_ids cs ++ l) (batched-batches_of gs) ∙ sym (map-append _ cs (members gs))

-- The order of an update, with the docker ids that it has.
sorted-docker_ids :
    (to_update all : List Container)
    → Nodup (ids all)
    → Nodup (ids to_update)
    → All (HasDockerId all) to_update
    → (sorted : List Container) × (topological_sort to_update all ≡ some sorted)
      × Perm (docker_ids sorted) (docker_ids to_update)
unfolding topological_sort scope_of
sorted-docker_ids to_update all n u h =
    let (w, e, m, k) = visit_all_sorted to_update all in
    let kept =
      visit_all-Keeps (HasDockerId all) (suc (length to_update)) (scope_of to_update all)
        (sort_by_priority to_update) nothing_visited
        (name_map_from-InMap (HasDockerId all) [] all (λ name. unfold JsMap.get in tt)
          (HasDockerId-All all n))
        (sort_by_priority-All (HasDockerId all) to_update h) tt in
    (
      w.result,
      ap (λ o. elim o [ none ↦ none | some v ↦ some v.result ]) e,
      docker_ids-Perm all w.result to_update (subst (Keeps (HasDockerId all)) e kept) h
          ((perm_ext_iff_of_Nodup k u).1 m),
    )

abbrev Covers : List Container → Option (List UpdateBatch) → Type 0
Covers u o = (bs : List UpdateBatch) × (o ≡ some bs) × Perm (batched bs) (docker_ids u)

empty_or_not :
    (u : List Container) (o : Option (List UpdateBatch))
    → Covers u o
    → Covers u (if is_empty u then some [] else o)
empty_or_not [] o h = ([], refl, Perm.refl [])
empty_or_not (c ∷ u) o h = h

by_branch :
    (u : List Container) (found : Option (List Container)) (sorted : List Container)
    → found ≡ some sorted
    → Perm (batched (batches_of (groups_of sorted))) (docker_ids u)
    → Covers u (
        if is_empty u
        then some []
        else if not (any labelled u)
        then some (single_batch u ∷ [])
        else elim found [ none ↦ none | some cs ↦ some (batches_of (groups_of cs)) ])
unfolding single_batch
by_branch u found sorted e p = empty_or_not u _ (
    if_cases (Covers u) (not (any labelled u))
      (
        single_batch u ∷ [],
        refl,
        subst (λ l. Perm l (docker_ids u)) (sym (append-nil (docker_ids u))) (Perm.refl _),
      )
      (
        batches_of (groups_of sorted),
        ap (λ o. elim o [ none ↦ none | some cs ↦ some (batches_of (groups_of cs)) ]) e,
        p,
      ))

-- With distinct ids, the batches of an update are found, and together they hold the docker id of each
-- container that is asked for, by either of its ids, exactly once, and no other.
pub resolve_update_batches-Perm :
    (all_containers : List Container) (container_ids : List Text)
    → Nodup (ids all_containers)
    → (bs : List UpdateBatch) × (resolve_update_batches all_containers container_ids ≡ some bs)
      × Perm (batched bs) (docker_ids (keep (is_selected container_ids) all_containers))
unfolding resolve_update_batches
resolve_update_batches-Perm all_containers container_ids n =
    let to_update = keep (is_selected container_ids) all_containers in
    let (sorted, e, p) =
      sorted-docker_ids to_update all_containers n (Nodup-keep (is_selected container_ids) _ n)
        (All-keep _ (is_selected container_ids) _ (HasDockerId-All all_containers n)) in
    let (_, _, q) = groups_of_lem sorted in
    by_branch to_update (topological_sort to_update all_containers) sorted e (
      subst (λ l. Perm l (docker_ids to_update)) (sym (batched-batches_of (groups_of sorted)))
        (Perm.trans (Perm.map (λ c. c.docker_id) q) p))
