-- ===== src/Orchestrator/Visited.antt =====
-- What holds of all containers holds of those that are visited (controller/src/scheduler/orchestrator.ts,
-- topologicalSort).
use watchwarden.Base.{
  ℕ, zero, suc, Option, none, some, List, [], ◌∷◌, ◌++◌, Text, ◌===◌, if_cases, All,
}
use watchwarden.JsMap
use watchwarden.JsMap.{Map, get-set}
use watchwarden.Orchestrator.{
  Container, Visit, Scope, visit, visit_all, visit_deps, visit_dep, bind_visit, push_result,
  dependencies, name_map_from,
}

abbrev pub OptionAll {ℓ κ} : {A : Type ℓ} → (A → Type κ) → Option A → Type κ
OptionAll P none = Unit
OptionAll P (some a) = P a

-- Where the containers of the map, the visited ones and the next one have a property, so has all
-- that a visit leaves.
module _ (P : Container → Type 0) where
  abbrev pub Keeps : Option Visit → Type 0
  Keeps = OptionAll (λ v. All P v.result)

  abbrev pub InMap : Map Container → Type 0
  InMap m = (name : Text) → OptionAll P (JsMap.get name m)

  pub name_map_from-InMap :
      (m : Map Container) (cs : List Container) → InMap m → All P cs → InMap (name_map_from m cs)
  unfolding name_map_from
  name_map_from-InMap m [] h k = h
  name_map_from-InMap m (c ∷ cs) h (p, k) =
      name_map_from-InMap (JsMap.set c.name c m) cs
        (λ name. rw (get-set c.name name c m) (if_cases (OptionAll P) (c.name === name) p (h name)))
        k

  bind_visit-Keeps :
      (o : Option Visit) (k : Visit → Option Visit)
      → Keeps o
      → ((v : Visit) → All P v.result → Keeps (k v))
      → Keeps (bind_visit o k)
  unfolding bind_visit
  bind_visit-Keeps none k h f = tt
  bind_visit-Keeps (some v) k h f = f v h

  visit_dep-Keeps :
      (vis : Container → Visit → Option Visit) (s : Scope) (o : Option Container) (v : Visit)
      → ((c : Container) (u : Visit) → P c → All P u.result → Keeps (vis c u))
      → OptionAll P o
      → All P v.result
      → Keeps (visit_dep vis s o v)
  unfolding visit_dep
  visit_dep-Keeps vis s none v f p h = h
  visit_dep-Keeps vis s (some dep) v f p h =
      if_cases Keeps (JsMap.member dep.id s.to_update) (f dep v p h) h

  visit_deps-Keeps :
      (vis : Container → Visit → Option Visit) (s : Scope) (deps : List Text) (v : Visit)
      → ((c : Container) (u : Visit) → P c → All P u.result → Keeps (vis c u))
      → InMap s.name_map
      → All P v.result
      → Keeps (visit_deps vis s deps v)
  unfolding visit_deps
  visit_deps-Keeps vis s [] v f m h = h
  visit_deps-Keeps vis s (d ∷ deps) v f m h =
      bind_visit-Keeps (visit_dep vis s (JsMap.get d s.name_map) v) (visit_deps vis s deps)
        (visit_dep-Keeps vis s (JsMap.get d s.name_map) v f (m d) h)
        (λ u k. visit_deps-Keeps vis s deps u f m k)

  All-append_one : (xs : List Container) (x : Container) → All P xs → P x → All P (xs ++ x ∷ [])
  All-append_one [] x h p = (p, tt)
  All-append_one (y ∷ xs) x (q, h) p = (q, All-append_one xs x h p)

  visit-Keeps :
      (fuel : ℕ) (s : Scope) (c : Container) (v : Visit)
      → InMap s.name_map
      → P c
      → All P v.result
      → Keeps (visit fuel s c v)
  unfolding visit push_result
  visit-Keeps zero s c v m p h = tt
  visit-Keeps (suc fuel) s c v m p h = if_cases Keeps (JsMap.member c.id v.visited) h (
      bind_visit-Keeps _ _
        (visit_deps-Keeps (visit fuel s) s (dependencies c) _
          (λ d u q k. visit-Keeps fuel s d u m q k) m h)
        (λ u k. All-append_one u.result c k p))

  pub visit_all-Keeps :
      (fuel : ℕ) (s : Scope) (cs : List Container) (v : Visit)
      → InMap s.name_map
      → All P cs
      → All P v.result
      → Keeps (visit_all fuel s cs v)
  unfolding visit_all
  visit_all-Keeps fuel s [] v m k h = h
  visit_all-Keeps fuel s (c ∷ cs) v m (p, k) h =
      bind_visit-Keeps (visit fuel s c v) (visit_all fuel s cs) (visit-Keeps fuel s c v m p h)
        (λ u g. visit_all-Keeps fuel s cs u m k g)
