-- ===== src/Orchestrator.antt =====
-- controller/src/scheduler/orchestrator.ts: the order in which an agent's containers are updated. A
-- priority, a database INTEGER, is given by its distance from the least one, -2^31. `depends_on` is
-- given by what parsing its text yields. `sort` is stable, as the language has it; the recursion of
-- `visit` runs on fuel.
pub mod Progress
pub mod Fuel
pub mod Contents
pub mod Groups
pub mod Batches
pub mod Met
pub mod Order
pub mod Visited
pub mod Selected
pub mod Told
mod Tests
use watchwarden.Base.{
  ℕ, zero, suc, ◌+◌, Bool, true, false, not, ◌&&◌, ◌||◌, Option, none, some, List, [], ◌∷◌, ◌++◌,
  map, Text, text, ◌===◌, leb, ◌==◌, if◌then◌else◌, or_else, is_empty, keep, any, length,
}
use watchwarden.JsMap
use watchwarden.JsMap.{Map}

-- Missing or empty; a text that is no JSON list of names; or a list of names.
pub data DependsOn : Type 0 where
  absent : DependsOn
  invalid : DependsOn
  names : List Text → DependsOn

pub record Container : Type 0 where
  pub id : Text
  pub docker_id : Text
  pub name : Text
  pub update_priority : ℕ
  pub depends_on : DependsOn

pub record UpdateBatch : Type 0 where
  pub container_ids : List Text
  pub container_names : List Text
  pub priority : ℕ
  pub wait_for_healthy : Bool

-- 100
abbrev pub default_priority : ℕ
default_priority = 2147483748

-- The names that the loop of `visit` goes through.
unfoldable pub dependencies : Container → List Text
dependencies c = elim c.depends_on [ absent ↦ [] | invalid ↦ [] | names ns ↦ ns ]

has_depends_on : DependsOn → Bool
has_depends_on absent = false
has_depends_on _ = true

-- A stable sort by priority.
unfoldable pub insert : Container → List Container → List Container
insert c [] = c ∷ []
insert c (d ∷ ds) = if leb c.update_priority d.update_priority then c ∷ d ∷ ds else d ∷ insert c ds

unfoldable pub sort_by_priority : List Container → List Container
unfolding insert
sort_by_priority [] = []
sort_by_priority (c ∷ cs) = insert c (sort_by_priority cs)

unfoldable pub name_map_from : Map Container → List Container → Map Container
name_map_from m [] = m
name_map_from m (c ∷ cs) = name_map_from (JsMap.set c.name c m) cs

-- The variables that the nested function closes over.
pub record Visit : Type 0 where
  pub visited : List Text
  pub result : List Container

abbrev pub nothing_visited : Visit
nothing_visited = record { visited = []; result = [] }

-- What a visit needs: the containers by name, and the ids to update.
pub record Scope : Type 0 where
  pub name_map : Map Container
  pub to_update : List Text

-- `if (dep && toUpdateSet.has(dep.id)) visit(dep)`
visit_dep : (Container → Visit → Option Visit) → Scope → Option Container → Visit → Option Visit
visit_dep visit s none v = some v
visit_dep visit s (some dep) v = if JsMap.member dep.id s.to_update then visit dep v else some v

bind_visit : Option Visit → (Visit → Option Visit) → Option Visit
bind_visit none k = none
bind_visit (some v) k = k v

-- The loop over the dependencies, given the visit of one.
visit_deps : (Container → Visit → Option Visit) → Scope → List Text → Visit → Option Visit
unfolding visit_dep bind_visit
visit_deps visit s [] v = some v
visit_deps visit s (dep_name ∷ deps) v =
    bind_visit (visit_dep visit s (JsMap.get dep_name s.name_map) v) (visit_deps visit s deps)

push_result : Container → Visit → Option Visit
push_result c v = some (record v { result = v.result ++ c ∷ [] })

-- `none` if the fuel runs out.
unfoldable pub visit : ℕ → Scope → Container → Visit → Option Visit
unfolding visit_deps bind_visit push_result
visit zero s c v = none
visit (suc fuel) s c v =
    let inside =
      bind_visit
        (visit_deps (visit fuel s) s (dependencies c)
          (record v { visited = v.visited ++ c.id ∷ [] }))
        (push_result c) in
    if JsMap.member c.id v.visited then some v else inside

unfoldable pub visit_all : ℕ → Scope → List Container → Visit → Option Visit
unfolding visit bind_visit
visit_all fuel s [] v = some v
visit_all fuel s (c ∷ cs) v = bind_visit (visit fuel s c v) (visit_all fuel s cs)

abbrev pub ids : List Container → List Text
ids = map (λ c. c.id)

unfoldable pub scope_of : List Container → List Container → Scope
unfolding name_map_from
scope_of to_update all_containers = record {
  name_map = name_map_from [] all_containers;
  to_update = ids to_update;
}

-- The fuel is one more than the containers to update.
unfoldable pub topological_sort : List Container → List Container → Option (List Container)
unfolding visit_all scope_of sort_by_priority
topological_sort to_update all_containers =
    elim (visit_all (suc (length to_update)) (scope_of to_update all_containers)
      (sort_by_priority to_update) nothing_visited) [ none ↦ none | some v ↦ some v.result ]

-- The containers of a priority are added behind those that have it already; a `Map` with number
-- keys, in insertion order.
unfoldable pub add_to_group : Container → List (ℕ × List Container) → List (ℕ × List Container)
add_to_group c [] = (c.update_priority, c ∷ []) ∷ []
add_to_group c ((p, cs) ∷ groups) =
    if p == c.update_priority then (p, cs ++ c ∷ []) ∷ groups else (p, cs) ∷ add_to_group c groups

unfoldable pub group_from : List (ℕ × List Container) → List Container → List (ℕ × List Container)
unfolding add_to_group
group_from groups [] = groups
group_from groups (c ∷ cs) = group_from (add_to_group c groups) cs

unfoldable pub insert_group :
    ℕ × List Container → List (ℕ × List Container) → List (ℕ × List Container)
insert_group g [] = g ∷ []
insert_group g (h ∷ hs) = if leb g.0 h.0 then g ∷ h ∷ hs else h ∷ insert_group g hs

unfoldable pub sort_groups : List (ℕ × List Container) → List (ℕ × List Container)
unfolding insert_group
sort_groups [] = []
sort_groups (g ∷ gs) = insert_group g (sort_groups gs)

unfoldable pub groups_of : List Container → List (ℕ × List Container)
unfolding group_from sort_groups
groups_of sorted = sort_groups (group_from [] sorted)

-- A batch waits unless it is the last.
unfoldable pub batches_of : List (ℕ × List Container) → List UpdateBatch
batches_of [] = []
batches_of ((p, cs) ∷ groups) =
    record {
      container_ids = map (λ c. c.docker_id) cs;
      container_names = map (λ c. c.name) cs;
      priority = p;
      wait_for_healthy = not (is_empty groups);
    }
    ∷ batches_of groups

-- `containerIds.includes(c.docker_id) || containerIds.includes(c.id)`
unfoldable pub is_selected : List Text → Container → Bool
is_selected container_ids c =
    JsMap.member c.docker_id container_ids || JsMap.member c.id container_ids

unfoldable pub single_batch : List Container → UpdateBatch
single_batch to_update = record {
  container_ids = map (λ c. c.docker_id) to_update;
  container_names = map (λ c. c.name) to_update;
  priority = default_priority;
  wait_for_healthy = false;
}

unfoldable pub labelled : Container → Bool
unfolding has_depends_on
labelled c = not (c.update_priority == default_priority) || has_depends_on c.depends_on

unfoldable pub resolve_update_batches : List Container → List Text → Option (List UpdateBatch)
unfolding is_selected single_batch labelled topological_sort groups_of batches_of
resolve_update_batches all_containers container_ids =
    let to_update = keep (is_selected container_ids) all_containers in
    let sorted = topological_sort to_update all_containers in
    if is_empty to_update
    then some []
    else if not (any labelled to_update)
    then some (single_batch to_update ∷ [])
    else elim sorted [ none ↦ none | some cs ↦ some (batches_of (groups_of cs)) ]

-- The messages that an update sends.
pub data Message : Type 0 where
  queued : (container_id container_name : Text) → Message
  update : (container_ids : List Text) (strategy : Text) → Message
  update_sequential : List (List Text × Bool × ℕ) → (strategy : Text) → Message

queue_each : List Text → List Text → List Message
queue_each (id ∷ container_ids) (name ∷ container_names) =
    queued id name ∷ queue_each container_ids container_names
queue_each _ _ = []

queue_all : List UpdateBatch → List Message
unfolding queue_each
queue_all [] = []
queue_all (b ∷ bs) = queue_each b.container_ids b.container_names ++ queue_all bs

send_batches : List UpdateBatch → List Text → Text → Message
send_batches [] container_ids strategy = update container_ids strategy
send_batches (b ∷ []) container_ids strategy = update b.container_ids strategy
send_batches bs container_ids strategy =
    update_sequential (map (λ b. (b.container_ids, b.wait_for_healthy, 120)) bs) strategy

unfoldable pub execute_orchestrated_update :
    List Container → List Text → Option Text → Option (List Message)
unfolding resolve_update_batches queue_all send_batches
execute_orchestrated_update all_containers container_ids strategy =
    elim (resolve_update_batches all_containers container_ids) [
      | none ↦ none
      | some bs ↦ some (
          queue_all bs ++ send_batches bs container_ids (or_else strategy (text "stop-first")) ∷ [])
    ]
