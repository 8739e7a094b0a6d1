-- ===== src/Orchestrator/Order.antt =====
-- Containers come after the containers that they depend on, where nothing depends on itself
-- (controller/src/scheduler/orchestrator.ts, topologicalSort).
pub mod Sorted
use mathlib.Core.Path.{subst}
use mathlib.Core.Logic.Or
use mathlib.Core.List.{Perm, Mem, mem-cons, mem-append, append_assoc, not-mem-nil, append-nil}
use mathlib.Core.List.Perm
use mathlib.Core.Bool.{Bool-set}
use watchwarden.Base.{
  true_is_not_false, ℕ, zero, suc, ◌≤◌, ◌<◌, ◌≡◌, refl, sym, ap, ◌∙◌, Bool, true, false, not, ◌||◌,
  Option, none, some, List, [], ◌∷◌, ◌++◌, arith, Text, if◌then◌else◌, length, keep, every, All,
  All-mono, All-keep, Bool-cases, leb→le, leb, Option-cases, inl, inr,
}
use watchwarden.JsMap
use watchwarden.JsMap.Members.{mem→member, member→mem}
use watchwarden.Orchestrator.{
  Container, Visit, Scope, ids, visit, visit_dep, visit_deps, visit_all, bind_visit, push_result,
  dependencies, nothing_visited, topological_sort, scope_of, sort_by_priority,
}
use watchwarden.Orchestrator.Fuel.{close, open-Perm}
use watchwarden.Orchestrator.Progress.{
  left, left-le, left-append_lt, Extends, Extends-refl, Extends-trans, member_last,
}
use watchwarden.Orchestrator.Met.{
  met, IsOrdered, IsOrdered-append_one, Lower, Ranked, Done, met-Done,
}

-- A stretch of visits keeps the order, where no container under way has a rank below `r`.
abbrev pub Keeps : Scope → (Text → ℕ) → ℕ → Visit → Visit → Type 0
Keeps s rank r v w =
    (open_ids : List Text)
    → Perm v.visited (ids v.result ++ open_ids)
    → ((x : Text) → Mem x open_ids → r ≤ rank x)
    → IsOrdered s [] v.result
    → IsOrdered s [] w.result

-- The visit of a container ends, and keeps the order.
abbrev pub Visits : Scope → (Text → ℕ) → Container → Visit → Option Visit → Type 0
Visits s rank c v o =
    (w : Visit) × (o ≡ some w)
    × Extends s v w
    × (JsMap.member c.id w.visited ≡ true)
    × Keeps s rank (suc (rank c.id)) v w

-- The same for a fuel, any container and any state.
abbrev pub VisitsAt : Scope → (Text → ℕ) → ℕ → Type 0
VisitsAt s rank fuel =
    (c : Container) (v : Visit)
    → Ranked s rank c
    → JsMap.member c.id s.to_update ≡ true
    → left s.to_update v.visited < fuel
    → Visits s rank c v (visit fuel s c v)

-- The names of a scope resolve to ranked containers.
abbrev pub AllRanked : Scope → (Text → ℕ) → Type 0
AllRanked s rank =
    (name : Text) (d : Container) → JsMap.get name s.name_map ≡ some d → Ranked s rank d

same_name : {o : Option Container} {c d : Container} → o ≡ some c → o ≡ some d → c ≡ d
same_name e k = cc

not_both :
    (u : List Text) {c d : Container}
    → c ≡ d
    → JsMap.member d.id u ≡ true
    → JsMap.member c.id u ≡ false
    → ⊥
not_both u e m n = true_is_not_false m (subst (λ c. JsMap.member c.id u ≡ false) e n)

visit_dep-Keeps :
    (s : Scope) (rank : Text → ℕ) (fuel r : ℕ) (name : Text) (v : Visit)
    → AllRanked s rank
    → VisitsAt s rank fuel
    → Lower s rank r name
    → left s.to_update v.visited < fuel
    → (o : Option Container) → JsMap.get name s.name_map ≡ o
    → (w : Visit) × (visit_dep (visit fuel s) s o v ≡ some w)
      × Extends s v w
      × Done s w.visited name
      × Keeps s rank r v w
unfolding visit_dep
visit_dep-Keeps s rank fuel r name v a ih l h none e =
    (v, refl, Extends-refl s v, (λ d k m. cc), (λ o p f i. i))
visit_dep-Keeps s rank fuel r name v a ih l h (some c) e =
    elim (Bool-cases (JsMap.member c.id s.to_update)) [
      | inr other ↦ (
        v,
        ap (λ b. if b then visit fuel s c v else some v) other,
        Extends-refl s v,
        (λ d k m. absurd (not_both _ (same_name e k) m other)),
        (λ o p f i. i),
      )
      | inl wanted ↦
          let (w, g, x, y, k) = ih c v (a name c e) wanted h in
          (
            w,
            ap (λ b. if b then visit fuel s c v else some v) wanted ∙ g,
            x,
            (λ d j m. subst (λ c. JsMap.member c.id w.visited ≡ true) (same_name e j) y),
            (λ o p f i. k o p (λ z n. omega (arith, f z n, l c e wanted)) i),
          )
    ]

visit_deps-Keeps :
    (s : Scope) (rank : Text → ℕ) (fuel r : ℕ) (names : List Text) (v : Visit)
    → AllRanked s rank
    → VisitsAt s rank fuel
    → All (Lower s rank r) names
    → left s.to_update v.visited < fuel
    → (w : Visit) × (visit_deps (visit fuel s) s names v ≡ some w)
      × Extends s v w
      × All (Done s w.visited) names
      × Keeps s rank r v w
unfolding visit_deps bind_visit
visit_deps-Keeps s rank fuel r [] v a ih l h = (v, refl, Extends-refl s v, tt, (λ o p f i. i))
visit_deps-Keeps s rank fuel r (d ∷ names) v a ih (l, ls) h =
    let (w, e, x, y, k) =
      visit_dep-Keeps s rank fuel r d v a ih l h (JsMap.get d s.name_map) refl in
    let (z, f, x', y', k') =
      visit_deps-Keeps s rank fuel r names w a ih ls (omega (arith, x.fewer)) in
    (
      z,
      ap (λ o. bind_visit o (visit_deps (visit fuel s) s names)) e ∙ f,
      Extends-trans x x',
      ((λ c j m. x'.grows c.id (y c j m)), y'),
      (λ o p g i. k' o (x.perm o p) g (k o p g i)),
    )

-- The ids under way around the dependencies of a container: its own, and those above it.
open-le :
    (rank : Text → ℕ) (x : Text) (open_ids : List Text)
    → ((y : Text) → Mem y open_ids → suc (rank x) ≤ rank y)
    → (y : Text) → Mem y (x ∷ open_ids)
    → rank x ≤ rank y
open-le rank x o f y m = leb→le (rank x) (rank y) (
    Or.elim (Bool-set _ _) (mem-cons.0 m) (λ e. ground (arith, ap rank e))
      (λ n. ground (arith, f y n)))

visit_new-Keeps :
    (s : Scope) (rank : Text → ℕ) (fuel : ℕ) (c : Container) (v : Visit)
    → AllRanked s rank
    → VisitsAt s rank fuel
    → Ranked s rank c
    → JsMap.member c.id s.to_update ≡ true
    → JsMap.member c.id v.visited ≡ false
    → left s.to_update v.visited < suc fuel
    → Visits s rank c v (visit (suc fuel) s c v)
unfolding visit bind_visit push_result met
visit_new-Keeps s rank fuel c v a ih l m n h =
    let o = record v { visited = v.visited ++ c.id ∷ [] } in
    let (w, e, x, y, k) =
      visit_deps-Keeps s rank fuel (rank c.id) (dependencies c) o a ih l
        (omega (arith, left-append_lt s.to_update v.visited c.id m n)) in
    (
      record w { result = w.result ++ c ∷ [] },
      ap
            (λ b.
              if b
              then some v
              else bind_visit (visit_deps (visit fuel s) s (dependencies c) o) (push_result c))
            n
          ∙ ap (λ r. bind_visit r (push_result c)) e,
      close s c v w m n x,
      x.grows c.id (member_last c.id v.visited),
      (λ b p f i.
          IsOrdered-append_one s [] w.result c
            (k (c.id ∷ b) (open-Perm c v b p) (open-le rank c.id b f) i)
            (met-Done s rank (rank c.id) (c.id ∷ b) (ids w.result) (dependencies c)
              (open-le rank c.id b f) l w.visited (x.perm (c.id ∷ b) (open-Perm c v b p)) y)),
    )

-- With more fuel than ids to visit, the visit of a ranked container keeps the order.
pub visit-Keeps : (s : Scope) (rank : Text → ℕ) (fuel : ℕ) → AllRanked s rank → VisitsAt s rank fuel
unfolding visit
visit-Keeps s rank zero a c v l m h = absurd (omega (arith, h))
visit-Keeps s rank (suc fuel) a c v l m h = elim (Bool-cases (JsMap.member c.id v.visited)) [
  | inl old ↦ (v, rw old, Extends-refl s v, old, (λ o p f i. i))
  | inr new ↦ visit_new-Keeps s rank fuel c v a (visit-Keeps s rank fuel a) l m new h
]
