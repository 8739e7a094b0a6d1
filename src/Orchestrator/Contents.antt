-- ===== src/Orchestrator/Contents.antt =====
-- What the order of an update contains (controller/src/scheduler/orchestrator.ts, topologicalSort).
use mathlib.Core.Path.{subst}
use mathlib.Core.List.{
  Perm, Nodup, Mem, mem-cons, perm_ext_iff_of_Nodup, append-nil, not-mem-nil, Mem-prop, Nodup-nil,
}
use mathlib.Core.List.Perm
use mathlib.Core.Logic.Or
use watchwarden.Base.{
  suc, ◌≡◌, refl, sym, ap, true, false, ◌↔◌, none, some, List, [], ◌∷◌, arith, Text, if◌then◌else◌,
  length, All, Bool-cases, inl, inr, leb,
}
use watchwarden.JsMap
use watchwarden.JsMap.Members.{mem→member, member→mem}
use watchwarden.Orchestrator.{
  Container, Visit, ids, insert, sort_by_priority, scope_of, visit_all, topological_sort,
  nothing_visited,
}
use watchwarden.Orchestrator.Fuel.{visit_all-Ends}
use watchwarden.Orchestrator.Progress.{left-le}

insert-Perm : (c : Container) (cs : List Container) → Perm (insert c cs) (c ∷ cs)
unfolding insert
insert-Perm c [] = Perm.refl _
insert-Perm c (d ∷ ds) = elim (Bool-cases (leb c.update_priority d.update_priority)) [
  | inl le ↦
      subst (λ b. Perm (if b then c ∷ d ∷ ds else d ∷ insert c ds) (c ∷ d ∷ ds)) (sym le)
        (Perm.refl _)
  | inr gt ↦
      subst (λ b. Perm (if b then c ∷ d ∷ ds else d ∷ insert c ds) (c ∷ d ∷ ds)) (sym gt)
        (Perm.trans (Perm.cons d (insert-Perm c ds)) (Perm.swap c d ds))
]

pub sort_by_priority-Perm : (cs : List Container) → Perm (sort_by_priority cs) cs
unfolding sort_by_priority
sort_by_priority-Perm [] = Perm.refl _
sort_by_priority-Perm (c ∷ cs) =
    Perm.trans (insert-Perm c (sort_by_priority cs)) (Perm.cons c (sort_by_priority-Perm cs))

pub length-ids : (cs : List Container) → length (ids cs) ≡ length cs
length-ids [] = refl
length-ids (c ∷ cs) = ap suc (length-ids cs)

pub false_is_not_true : false ≡ true → ⊥
false_is_not_true h = cc

-- Where all of a list satisfies a property of ids, so does what has the same ids.
All-mem :
    (u : List Text) (cs : List Container)
    → ((x : Text) → Mem x (ids cs) → Mem x u)
    → All (λ c. JsMap.member c.id u ≡ true) cs
All-mem u [] f = tt
All-mem u (c ∷ cs) f = (
  mem→member c.id u (f c.id (mem-cons.1 (Or.inl refl))),
  All-mem u cs (λ x m. f x (mem-cons.1 (Or.inr m))),
)

pub All-sorted :
    (cs : List Container) → All (λ c. JsMap.member c.id (ids cs) ≡ true) (sort_by_priority cs)
All-sorted cs =
    All-mem (ids cs) (sort_by_priority cs)
      (λ x m. (Perm.mem_iff (Perm.map (λ c. c.id) (sort_by_priority-Perm cs))).0 m)

-- What holds of the ids of all members.
All→Mem :
    (u : List Text) (cs : List Container)
    → All (λ c. JsMap.member c.id u ≡ true) cs
    → (x : Text) → Mem x (ids cs)
    → Mem x u
All→Mem u [] h x m = absurd (not-mem-nil m)
All→Mem u (c ∷ cs) (p, h) x m =
    Or.elim Mem-prop (mem-cons.0 m) (λ e. subst (λ y. Mem y u) (sym e) (member→mem c.id u p))
      (λ n. All→Mem u cs h x n)

-- The visits of all containers end, and have visited each of them once.
pub visit_all_sorted :
    (to_update all_containers : List Container)
    → (w : Visit) × (visit_all
          (suc (length to_update))
          (scope_of to_update all_containers)
          (sort_by_priority to_update)
          nothing_visited
        ≡ some w)
      × ((x : Text) → Mem x (ids w.result) ↔ Mem x (ids to_update))
      × Nodup (ids w.result)
unfolding scope_of JsMap.member
visit_all_sorted to_update all_containers =
    let s = scope_of to_update all_containers in
    let (w, e, x, k) =
      visit_all-Ends (suc (length to_update)) s (sort_by_priority to_update) nothing_visited
        (All-sorted to_update) (omega (arith, left-le (ids to_update) [], length-ids to_update)) in
    let p = subst (λ l. Perm w.visited l) (append-nil (ids w.result)) (x.perm [] (Perm.refl [])) in
    (
      w,
      e,
      (λ y. (
        (λ m. member→mem y (ids to_update) (
            x.inside (λ z h. absurd (false_is_not_true h)) y
              (mem→member y w.visited ((Perm.mem_iff p).1 m)))),
        (λ m. (Perm.mem_iff p).0 (
            All→Mem w.visited (sort_by_priority to_update) k y
              ((Perm.mem_iff (Perm.map (λ c. c.id) (sort_by_priority-Perm to_update))).1 m))),
      )),
      Perm.nodup p (x.nodup Nodup-nil),
    )

-- The order of an update is found, for any dependencies, cyclic ones included. With distinct ids, it
-- has each container that is to be updated exactly once, by its id.
pub topological_sort-Perm :
    (to_update all_containers : List Container)
    → Nodup (ids to_update)
    → (sorted : List Container) × (topological_sort to_update all_containers ≡ some sorted)
      × Perm (ids sorted) (ids to_update)
unfolding topological_sort
topological_sort-Perm to_update all_containers n =
    let (w, e, m, k) = visit_all_sorted to_update all_containers in
    (
      w.result,
      ap (λ o. elim o [ none ↦ none | some v ↦ some v.result ]) e,
      (perm_ext_iff_of_Nodup k n).1 m,
    )
