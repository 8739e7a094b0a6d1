-- ===== src/Hub/AutoUpdate/FirstSeen.antt =====
-- Since when an update has been visible (controller/src/ws/hub.ts, the stamps of CHECK_RESULT).
use watchwarden.Base.{ℕ, false, ◌&&◌, Option, none, some, List, [], ◌∷◌, Text, if◌then◌else◌, every}
use watchwarden.JsMap
use watchwarden.Hub.AutoUpdate.{Container, CheckResultItem, Config, Hub, check_result, write_row}

-- A check at a time that reports on one container, and does not fail.
pub record Check : Type 0 where
  pub now : ℕ
  pub config : Config
  pub item : CheckResultItem

abbrev item_of : Text → Check → CheckResultItem
item_of id k = record k.item { container_id = id; check_failed = false }

-- Checks of a container, in order.
unfoldable pub run : Text → Text → List Check → Hub → Hub
run agent_id id [] h = h
run agent_id id (k ∷ ks) h =
    run agent_id id ks (check_result k.now agent_id k.config (item_of id k ∷ []) h)

-- The time of the first of the reports at the end that all have an update.
unfoldable pub since : List Check → Option ℕ
since [] = none
since (k ∷ ks) =
    if k.item.has_update && every (λ j. j.item.has_update) ks then some k.now else since ks

-- The row after the checks.
run_row : Text → List Check → Container → Container
run_row id [] c = c
run_row id (k ∷ ks) c = run_row id ks (write_row k.now c.has_update (item_of id k) c)
