-- ===== src/Orchestrator/Order/Sorted.antt =====
-- The whole order of an update respects the dependencies (controller/src/scheduler/orchestrator.ts).
use mathlib.Core.Path.{subst}
use mathlib.Core.List.{Perm, not-mem-nil}
use mathlib.Core.List.Perm
use watchwarden.Base.{
  ℕ, suc, ◌<◌, ◌≡◌, refl, sym, ap, ◌∙◌, Bool, true, false, Option, none, some, List, [], ◌∷◌, ◌++◌,
  arith, Text, if◌then◌else◌, length, leb, keep, All, All-keep, Bool-cases, inl, inr, if_cases,
  ◌===◌,
}
use watchwarden.JsMap
use watchwarden.JsMap.{Map}
use watchwarden.Orchestrator.{
  Container, Visit, Scope, ids, visit_all, bind_visit, nothing_visited, topological_sort, scope_of,
  sort_by_priority, insert, name_map_from,
}
use watchwarden.Orchestrator.Contents.{All-sorted, length-ids}
use watchwarden.Orchestrator.Progress.{left, left-le}
use watchwarden.Orchestrator.Order.{AllRanked, visit-Keeps}
use watchwarden.Orchestrator.Met.{IsOrdered, Ranked}

some_of_if_true :
    (b : Bool) (o : Option Container) (c d : Container)
    → b ≡ true
    → (if b then some c else o) ≡ some d
    → c ≡ d
some_of_if_true true o c d h e = cc
some_of_if_true false o c d h e = cc

some_of_if_false :
    (b : Bool) (o : Option Container) (c d : Container)
    → b ≡ false
    → (if b then some c else o) ≡ some d
    → o ≡ some d
some_of_if_false true o c d h e = cc
some_of_if_false false o c d h e = e

set-All {κ} :
    (P : Container → Type κ) (m : Map Container) (c : Container)
    → ((name : Text) (d : Container) → JsMap.get name m ≡ some d → P d)
    → P c
    → (name : Text) (d : Container) → JsMap.get name (JsMap.set c.name c m) ≡ some d
    → P d
set-All P m c f p name d e = elim (Bool-cases (c.name === name)) [
  | inl same ↦ subst P (some_of_if_true _ _ _ _ same (sym (JsMap.get-set c.name name c m) ∙ e)) p
  | inr other ↦ f name d (some_of_if_false _ _ c _ other (sym (JsMap.get-set c.name name c m) ∙ e))
]

name_map_from-All {κ} :
    (P : Container → Type κ) (m : Map Container) (cs : List Container)
    → ((name : Text) (d : Container) → JsMap.get name m ≡ some d → P d)
    → All P cs
    → (name : Text) (d : Container) → JsMap.get name (name_map_from m cs) ≡ some d
    → P d
unfolding name_map_from
name_map_from-All P m [] f h = f
name_map_from-All P m (c ∷ cs) f (p, h) =
    name_map_from-All P (JsMap.set c.name c m) cs (set-All P m c f p) h

insert-All {κ} :
    (P : Container → Type κ) (c : Container) (cs : List Container)
    → P c
    → All P cs
    → All P (insert c cs)
unfolding insert
insert-All P c [] p h = (p, tt)
insert-All P c (d ∷ ds) p (q, h) =
    if_cases (All P) (leb c.update_priority d.update_priority) (p, (q, h))
      (q, insert-All P c ds p h)

sort_by_priority-All {κ} :
    (P : Container → Type κ) (cs : List Container) → All P cs → All P (sort_by_priority cs)
unfolding sort_by_priority
sort_by_priority-All P [] h = tt
sort_by_priority-All P (c ∷ cs) (p, h) =
    insert-All P c (sort_by_priority cs) p (sort_by_priority-All P cs h)

visit_all-IsOrdered :
    (fuel : ℕ) (s : Scope) (rank : Text → ℕ) (cs : List Container) (v : Visit)
    → AllRanked s rank
    → All (Ranked s rank) cs
    → All (λ c. JsMap.member c.id s.to_update ≡ true) cs
    → left s.to_update v.visited < fuel
    → Perm v.visited (ids v.result ++ [])
    → IsOrdered s [] v.result
    → (w : Visit) × (visit_all fuel s cs v ≡ some w) × IsOrdered s [] w.result
unfolding visit_all bind_visit
visit_all-IsOrdered fuel s rank [] v a r m h p i = (v, refl, i)
visit_all-IsOrdered fuel s rank (c ∷ cs) v a (rc, r) (mc, m) h p i =
    let (w, e, x, y, k) = visit-Keeps s rank fuel a c v rc mc h in
    let (z, f, j) =
      visit_all-IsOrdered fuel s rank cs w a r m (omega (arith, x.fewer)) (x.perm [] p)
        (k [] p (λ y n. absurd (not-mem-nil n)) i) in
    (z, ap (λ o. bind_visit o (visit_all fuel s cs)) e ∙ f, j)

-- Where the dependencies among the containers that are to be updated have no cycle, which a rank
-- shows that is lower for what a container depends on, each container of the order stands behind
-- all that it depends on.
pub topological_sort-IsOrdered :
    (wanted : Container → Bool) (all_containers : List Container) (rank : Text → ℕ)
    → All (Ranked (scope_of (keep wanted all_containers) all_containers) rank) all_containers
    → (sorted : List Container) × (topological_sort (keep wanted all_containers) all_containers
        ≡ some sorted)
      × IsOrdered (scope_of (keep wanted all_containers) all_containers) [] sorted
unfolding topological_sort scope_of IsOrdered JsMap.get
topological_sort-IsOrdered wanted all_containers rank r =
    let to_update = keep wanted all_containers in
    let s = scope_of to_update all_containers in
    let P = Ranked s rank in
    let (w, e, i) =
      visit_all-IsOrdered (suc (length to_update)) s rank (sort_by_priority to_update)
        nothing_visited (name_map_from-All P [] all_containers (λ name d h. cc) r)
        (sort_by_priority-All P to_update (All-keep P wanted all_containers r))
        (All-sorted to_update) (omega (arith, left-le (ids to_update) [], length-ids to_update))
        (Perm.refl []) tt in
    (w.result, ap (λ o. elim o [ none ↦ none | some v ↦ some v.result ]) e, i)
