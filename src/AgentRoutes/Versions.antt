-- ===== src/AgentRoutes/Versions.antt =====
-- GET /api/agents/:agentId/containers/:containerId/versions (controller/src/api/routes/agents.ts): the
-- versions that a container can be rolled back to, from the log of updates, newest first. The tags of
-- the registry, which the route adds, are left out.
pub mod Distinct
use watchwarden.Base.{
  ℕ, Bool, true, false, ◌&&◌, ◌||◌, Option, none, some, List, [], ◌∷◌, ◌++◌, Text, ◌===◌,
  if◌then◌else◌, or_else, is_empty, is_truthy, keep,
}
use watchwarden.JsMap
use watchwarden.Semver.{extract_explicit_tag}
use watchwarden.Hub.UpdateResult
use watchwarden.Hub.UpdateResult.{UpdateLog, Status}
use watchwarden.AgentRoutes.Data.{Container}
use watchwarden.AgentRoutes.Rollback.{has_at, after_at}

pub record Entry : Type 0 where
  pub log : UpdateLog
  pub created_at : ℕ

pub record Version : Type 0 where
  pub digest : Option Text
  pub tag : Option Text
  pub status : Option Status
  pub updated_at : ℕ
  pub is_current : Bool

-- What stands behind the "@", if there is one.
unfoldable pub strip_reference : Text → Text
unfolding has_at after_at
strip_reference d = if has_at d then after_at d else d

-- `bareDigest`: null and "" are none.
unfoldable pub bare_digest : Option Text → Option Text
unfolding strip_reference
bare_digest d = if is_truthy d then some (strip_reference (or_else d [])) else none

-- `===`, of a text and one that may be missing.
unfoldable pub equals_optional : Text → Option Text → Bool
equals_optional d none = false
equals_optional d (some e) = d === e

unfoldable pub current_digest_of : Option Container → Option Text
current_digest_of none = none
current_digest_of (some c) = c.current_digest

-- One side of an entry as a version.
unfoldable pub version_of :
    Option Container
    → (image_ref raw_digest : Option Text) → Option Status
    → (created_at : ℕ) → Version
unfolding strip_reference bare_digest equals_optional current_digest_of
version_of container image_ref raw_digest status created_at =
    let digest : Option Text = elim raw_digest [
      | none ↦ none
      | some d ↦ some (strip_reference d)
    ] in
    record {
      digest = digest;
      tag = if is_truthy image_ref then extract_explicit_tag (or_else image_ref []) else none;
      status = status;
      updated_at = created_at;
      is_current =
          if is_truthy digest
          then equals_optional (or_else digest []) (bare_digest (current_digest_of container))
          else false;
    }

-- `e.container_id === containerId || e.container_name === container?.name`
unfoldable pub is_relevant : (agent_id container_id : Text) → Option Container → Entry → Bool
is_relevant agent_id container_id container e =
    e.log.agent_id === agent_id
    && (e.log.container_id === container_id
        || elim container [ none ↦ false | some c ↦ e.log.container_name === c.base.name ])

-- The new side of each entry, with its status, and then the old one.
unfoldable pub sides : Option Container → List Entry → List Version
unfolding version_of
sides container [] = []
sides container (e ∷ es) =
    version_of container e.log.new_image e.log.new_digest (some e.log.status) e.created_at
    ∷ version_of container e.log.old_image e.log.old_digest none e.created_at
    ∷ sides container es

unfoldable pub digest_of : Version → Text
digest_of v = or_else v.digest []

-- The filter with its set of seen digests.
unfoldable pub unseen : (seen_digests : List Text) → List Version → List Version
unfolding digest_of
unseen seen [] = []
unseen seen (v ∷ vs) =
    let skipped = unseen seen vs in
    let kept = v ∷ unseen (JsMap.add (digest_of v) seen) vs in
    if is_empty (digest_of v)
    then skipped
    else if JsMap.member (digest_of v) seen
    then skipped
    else kept

-- `localVersions`, given the newest 50 entries of the log.
unfoldable pub local_versions :
    (agent_id container_id : Text) → Option Container → List Entry → List Version
unfolding is_relevant sides unseen
local_versions agent_id container_id container history =
    unseen [] (sides container (keep (is_relevant agent_id container_id container) history))
