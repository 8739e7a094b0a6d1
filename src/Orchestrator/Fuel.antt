-- ===== src/Orchestrator/Fuel.antt =====
-- The recursion of `visit` ends (controller/src/scheduler/orchestrator.ts, topologicalSort), and what
-- it has done then.
use mathlib.Core.Path.{subst}
use mathlib.Core.List.{Perm, perm_middle, perm_append_singleton}
use mathlib.Core.List.Perm
use watchwarden.Base.{
  ℕ, zero, suc, ◌<◌, ◌≡◌, refl, sym, ap, ◌∙◌, true, false, Option, none, some, List, [], ◌∷◌, ◌++◌,
  arith, Text, if◌then◌else◌, All, Bool-cases, inl, inr,
}
use watchwarden.JsMap
use watchwarden.Orchestrator.{
  Container, Visit, Scope, ids, visit, visit_dep, visit_deps, visit_all, bind_visit, push_result,
  dependencies,
}
use watchwarden.Orchestrator.Progress.{
  left, left-append_le, left-append_lt, Extends, Extends-refl, Extends-trans, member_last,
  member_before, inside_new, Nodup-append_one,
}

-- A visit that ends.
abbrev pub Ends : Scope → Visit → Option Visit → Type 0
Ends s v o = (w : Visit) × (o ≡ some w) × Extends s v w

visit_dep-Ends :
    (fuel : ℕ) (s : Scope) (o : Option Container) (v : Visit)
    → ((c : Container) (v : Visit)
        → JsMap.member c.id s.to_update ≡ true
        → left s.to_update v.visited < fuel
        → Ends s v (visit fuel s c v))
    → left s.to_update v.visited < fuel
    → Ends s v (visit_dep (visit fuel s) s o v)
unfolding visit_dep
visit_dep-Ends fuel s none v ih h = (v, refl, Extends-refl s v)
visit_dep-Ends fuel s (some dep) v ih h = elim (Bool-cases (JsMap.member dep.id s.to_update)) [
  | inl wanted ↦
      subst (Ends s v) (sym (ap (λ b. if b then visit fuel s dep v else some v) wanted))
        (ih dep v wanted h)
  | inr other ↦
      subst (Ends s v) (sym (ap (λ b. if b then visit fuel s dep v else some v) other))
        (v, refl, Extends-refl s v)
]

visit_deps-Ends :
    (fuel : ℕ) (s : Scope) (deps : List Text) (v : Visit)
    → ((c : Container) (v : Visit)
        → JsMap.member c.id s.to_update ≡ true
        → left s.to_update v.visited < fuel
        → Ends s v (visit fuel s c v))
    → left s.to_update v.visited < fuel
    → Ends s v (visit_deps (visit fuel s) s deps v)
unfolding visit_deps bind_visit
visit_deps-Ends fuel s [] v ih h = (v, refl, Extends-refl s v)
visit_deps-Ends fuel s (d ∷ deps) v ih h =
    let (w, e, x) = visit_dep-Ends fuel s (JsMap.get d s.name_map) v ih h in
    let (z, f, y) = visit_deps-Ends fuel s deps w ih (omega (arith, x.fewer)) in
    (z, ap (λ o. bind_visit o (visit_deps (visit fuel s) s deps)) e ∙ f, Extends-trans x y)

-- The ids that a container adds.
pub ids-append_one :
    (cs : List Container) (c : Container) (o : List Text)
    → ids (cs ++ c ∷ []) ++ o ≡ ids cs ++ c.id ∷ o
ids-append_one [] c o = refl
ids-append_one (d ∷ cs) c o = ap (λ r. d.id ∷ r) (ids-append_one cs c o)

-- The visit of a container is under way.
pub open-Perm :
    (c : Container) (v : Visit) (open_ids : List Text)
    → Perm v.visited (ids v.result ++ open_ids)
    → Perm (v.visited ++ c.id ∷ []) (ids v.result ++ c.id ∷ open_ids)
open-Perm c v o p =
    Perm.trans (perm_append_singleton c.id v.visited)
      (Perm.trans (Perm.cons c.id p) (Perm.symm (perm_middle (ids v.result) o)))

-- A container that is not visited yet: its id is taken in, and it comes behind its dependencies.
pub close :
    (s : Scope) (c : Container) (v w : Visit)
    → JsMap.member c.id s.to_update ≡ true
    → JsMap.member c.id v.visited ≡ false
    → Extends s (record v { visited = v.visited ++ c.id ∷ [] }) w
    → Extends s v (record w { result = w.result ++ c ∷ [] })
close s c v w m n x = record {
  fewer = omega (arith, x.fewer, left-append_le s.to_update v.visited c.id);
  grows = λ y h. x.grows y (member_before y c.id v.visited h);
  inside = λ f. x.inside (λ y h. inside_new s c v m f y h);
  perm = λ o p.
      subst (λ l. Perm w.visited l) (sym (ids-append_one w.result c o))
        (x.perm (c.id ∷ o) (open-Perm c v o p));
  nodup = λ k. x.nodup (Nodup-append_one c.id v.visited n k);
}

-- The visit of a container that is not visited yet.
visit_new-Ends :
    (fuel : ℕ) (s : Scope) (c : Container) (v : Visit)
    → ((c : Container) (v : Visit)
        → JsMap.member c.id s.to_update ≡ true
        → left s.to_update v.visited < fuel
        → Ends s v (visit fuel s c v))
    → JsMap.member c.id s.to_update ≡ true
    → JsMap.member c.id v.visited ≡ false
    → left s.to_update v.visited < suc fuel
    → (w : Visit) × (visit (suc fuel) s c v ≡ some w)
      × Extends s v w
      × (JsMap.member c.id w.visited ≡ true)
unfolding visit bind_visit push_result
visit_new-Ends fuel s c v ih m n h =
    let o = record v { visited = v.visited ++ c.id ∷ [] } in
    let (w, e, x) =
      visit_deps-Ends fuel s (dependencies c) o ih
        (omega (arith, left-append_lt s.to_update v.visited c.id m n)) in
    (
      record w { result = w.result ++ c ∷ [] },
      ap
            (λ b.
              if b
              then some v
              else bind_visit (visit_deps (visit fuel s) s (dependencies c) o) (push_result c))
            n
          ∙ ap (λ r. bind_visit r (push_result c)) e,
      close s c v w m n x,
      x.grows c.id (member_last c.id v.visited),
    )

-- With more fuel than ids to visit, a visit ends, and its container is visited.
pub visit-Ends :
    (fuel : ℕ) (s : Scope) (c : Container) (v : Visit)
    → JsMap.member c.id s.to_update ≡ true
    → left s.to_update v.visited < fuel
    → (w : Visit) × (visit fuel s c v ≡ some w)
      × Extends s v w
      × (JsMap.member c.id w.visited ≡ true)
unfolding visit bind_visit push_result
visit-Ends zero s c v m h = absurd (omega (arith, h))
visit-Ends (suc fuel) s c v m h = elim (Bool-cases (JsMap.member c.id v.visited)) [
  | inl old ↦ (v, rw old, Extends-refl s v, old)
  | inr new ↦
      visit_new-Ends fuel s c v
        (λ d u k l. let (w, e, x, y) = visit-Ends fuel s d u k l in (w, e, x)) m new h
]

-- Every container is visited.
pub visit_all-Ends :
    (fuel : ℕ) (s : Scope) (cs : List Container) (v : Visit)
    → All (λ c. JsMap.member c.id s.to_update ≡ true) cs
    → left s.to_update v.visited < fuel
    → (w : Visit) × (visit_all fuel s cs v ≡ some w)
      × Extends s v w
      × All (λ c. JsMap.member c.id w.visited ≡ true) cs
unfolding visit_all bind_visit
visit_all-Ends fuel s [] v m h = (v, refl, Extends-refl s v, tt)
visit_all-Ends fuel s (c ∷ cs) v (mc, m) h =
    let (w, e, x, y) = visit-Ends fuel s c v mc h in
    let (z, f, g, k) = visit_all-Ends fuel s cs w m (omega (arith, x.fewer)) in
    (z, ap (λ o. bind_visit o (visit_all fuel s cs)) e ∙ f, Extends-trans x g, (g.grows c.id y, k))
