-- ===== src/Hub/AutoUpdate/Sound.antt =====
-- What an automatic update is sent for (controller/src/ws/hub.ts, the case CHECK_RESULT).
use watchwarden.Base.{ℕ, ◌≡◌, ◌⊎◌, none, some, List, Text, find, All}
use watchwarden.JsMap
use watchwarden.Hub.AutoUpdate.{
  Container, CheckResultItem, Config, Hub, Sent, update, check_complete, dispatch_check_results,
  has_id,
}
use watchwarden.Hub.AutoUpdate.Eligible.{Permitted}

-- A result that an update of a container answers: the row of the container permits it, if there is
-- one.
pub record Justified (now : ℕ) (config : Config) (rows : List Container) (container_id : Text)
    : Type 0 where
  pub item : CheckResultItem
  pub same : item.container_id ≡ container_id
  pub row :
      (find (has_id container_id) rows ≡ none)
      ⊎ ((c : Container) × (find (has_id container_id) rows ≡ some c) × Permitted now config item c)

-- Every container of an UPDATE is justified.
abbrev pub IsSound : ℕ → Config → List Container → Sent → Type 0
IsSound now config rows (update a ids strategy) = All (Justified now config rows) ids
IsSound now config rows (check_complete a n m) = Unit
IsSound now config rows (dispatch_check_results a names) = Unit

-- All that a hub has sent is sound.
abbrev Sounds : ℕ → Config → Hub → Type 0
Sounds now config h = All (IsSound now config h.containers) h.sent
