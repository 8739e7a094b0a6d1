-- ===== src/Orchestrator/Tests.antt =====
-- Tests of the update order, and the theorems at concrete inputs.
use mathlib.Core.Path.{subst}
use mathlib.Core.List.{Perm}
use watchwarden.Base.{
  ◌<◌, ◌≡◌, refl, Bool, true, Option, none, some, List, [], ◌∷◌, map, arith, Text, text, ◌===◌,
  length, keep, All,
}
use watchwarden.JsMap
use watchwarden.JsMap.Members.{Nodup-of}
use watchwarden.Orchestrator.{
  Container, invalid, names, ids, scope_of, topological_sort, groups_of, resolve_update_batches,
  name_map_from, UpdateBatch, dependencies,
}
use watchwarden.Orchestrator.Contents.{topological_sort-Perm}
use watchwarden.Orchestrator.Batches.{AreBatches, resolve_update_batches-AreBatches}
use watchwarden.Orchestrator.Groups.{groups_of_lem, members, OfPriority, IsAscending}
use watchwarden.Orchestrator.Met.{IsOrdered, Ranked}
use watchwarden.Orchestrator.Order.Sorted.{topological_sort-IsOrdered}

abbrev app : Container
app = record {
  id = text "ap";
  docker_id = text "docker-ap";
  name = text "app";
  update_priority = 100;
  depends_on = names (text "db" ∷ text "cache" ∷ []);
}

abbrev db : Container
db = record {
  id = text "d";
  docker_id = text "docker-d";
  name = text "db";
  update_priority = 100;
  depends_on = invalid;
}

abbrev proxy : Container
proxy = record {
  id = text "prx";
  docker_id = text "docker-prx";
  name = text "proxy";
  update_priority = 50;
  depends_on = names (text "app" ∷ []);
}

abbrev all : List Container
all = app ∷ db ∷ proxy ∷ []

order_test : topological_sort all all ≡ some (db ∷ app ∷ proxy ∷ [])
unfolding topological_sort JsMap.member dependencies JsMap.get JsMap.set ◌===◌
order_test = refl

-- A cycle: the visit of the first container ends all the same.
abbrev looping : Container
looping = record db { depends_on = names (text "app" ∷ []) }

cycle_test : topological_sort (app ∷ looping ∷ []) (app ∷ looping ∷ []) ≡ some (looping ∷ app ∷ [])
unfolding topological_sort JsMap.member dependencies JsMap.get JsMap.set ◌===◌
cycle_test = refl

abbrev batch_names : Option (List UpdateBatch) → List (List Text)
batch_names none = []
batch_names (some bs) = map (λ b. b.container_names) bs

-- The proxy depends on the app, but its batch comes first, by its priority.
batches_test :
    batch_names (resolve_update_batches all (ids all))
    ≡ (text "proxy" ∷ []) ∷ (text "db" ∷ text "app" ∷ []) ∷ []
unfolding resolve_update_batches JsMap.member dependencies JsMap.get JsMap.set ◌===◌
batches_test = refl

distinct : JsMap.Members.are_distinct (ids all) ≡ true
unfolding JsMap.member ◌===◌
distinct = refl

topological_sort-Perm_example :
    (sorted : List Container) × (topological_sort all all ≡ some sorted)
    × Perm (ids sorted) (ids all)
topological_sort-Perm_example = topological_sort-Perm all all (Nodup-of (ids all) distinct)

abbrev wanted : Container → Bool
wanted c = true

same_container : {c d : Container} → some c ≡ some d → c ≡ d
same_container e = cc

all-Ranked : All (Ranked (scope_of (keep wanted all) all) length) all
unfolding scope_of name_map_from dependencies JsMap.get JsMap.set ◌===◌
all-Ranked = (
  ((λ d e m. subst (λ c. length c.id < 2) (same_container e) (omega arith)), ((λ d e m. cc), tt)),
  (tt, (((λ d e m. subst (λ c. length c.id < 3) (same_container e) (omega arith)), tt), tt)),
)

topological_sort-IsOrdered_example :
    (sorted : List Container) × (topological_sort (keep wanted all) all ≡ some sorted)
    × IsOrdered (scope_of (keep wanted all) all) [] sorted
topological_sort-IsOrdered_example = topological_sort-IsOrdered wanted all length all-Ranked

groups_of_lem_test :
    IsAscending (λ g. g.0) (groups_of all)
    × All OfPriority (groups_of all)
    × Perm (members (groups_of all)) all
groups_of_lem_test = groups_of_lem all

resolve_update_batches-AreBatches_example :
    (bs : List UpdateBatch) × (resolve_update_batches all (ids all) ≡ some bs) × AreBatches bs
resolve_update_batches-AreBatches_example = resolve_update_batches-AreBatches all (ids all)
