-- ===== src/Hub/Registration.antt =====
-- How an agent is let in (controller/src/ws/hub.ts, authenticateAgent and tryRecoveryRegister). The
-- hashes are parameters: `bcrypt_compare token hash`, `sha256 token`, the digest in hexadecimal
-- digits, and `decode_hex`, whose bytes `timingSafeEqual` compares; a stored digest has hexadecimal
-- digits only. Random ids are arguments, and so is whether recovery mode is active, which
-- isRecoveryModeActive computes.
pub mod Accepted
pub mod Recovery
use watchwarden.Base.{
  ℕ, ◌+◌, ◌≡◌, Bool, true, false, not, ◌&&◌, ◌||◌, Option, none, some, List, [], ◌∷◌, ◌++◌, Text,
  text, ◌===◌, leb, ltb, ◌==◌, if◌then◌else◌, or_else, is_empty, length, take, find, keep, every,
}
use watchwarden.Semver.{starts_with}

pub record Agent : Type 0 where
  pub id : Text
  pub name : Text
  pub hostname : Text
  pub token_hash : Text
  pub token_prefix : Option Text
  pub recovery_registered : Bool

-- What REGISTER says of itself.
pub record RegisterPayload : Type 0 where
  pub token : Text
  pub hostname : Text
  pub agent_name : Option Text

abbrev pub max_recovery_per_window : ℕ
max_recovery_per_window = 20

unfoldable pub has_prefix : Text → Agent → Bool
has_prefix prefix a = elim a.token_prefix [ none ↦ false | some p ↦ p === prefix ]

unfoldable pub has_no_prefix : Agent → Bool
has_no_prefix a = elim a.token_prefix [ none ↦ true | some p ↦ false ]

-- The agents of the prefix; if there are none, those that have none stored.
unfoldable pub candidates : Text → List Agent → List Agent
unfolding has_prefix has_no_prefix
candidates prefix agents =
    if is_empty (keep (has_prefix prefix) agents)
    then keep has_no_prefix agents
    else keep (has_prefix prefix) agents

-- Whether a stored hash is one of bcrypt.
unfoldable pub is_bcrypt : Text → Bool
is_bcrypt hash = starts_with (text "$2a$") hash || starts_with (text "$2b$") hash

-- The configuration of recovery mode, the agents of the database, newest first, and the counter of
-- the window.
pub record Registry : Type 0 where
  pub agents : List Agent
  pub recovery_count : ℕ

module _ (bcrypt_compare : Text → Text → Bool) (sha256 decode_hex : Text → Text) where
  unfoldable pub verifies : Text → Agent → Bool
  unfolding is_bcrypt
  verifies token a =
      if is_bcrypt a.token_hash
      then bcrypt_compare token a.token_hash
      else length a.token_hash == 64 && decode_hex a.token_hash === decode_hex (sha256 token)

  unfoldable pub authenticate_agent : Text → List Agent → Option Text
  unfolding candidates verifies
  authenticate_agent token agents =
      elim (find (verifies token) (candidates (take 8 token) agents)) [
        | none ↦ none
        | some a ↦ some a.id
      ]

-- `[0-9a-f]`
is_hex : ℕ → Bool
is_hex c = (leb b'0' c && leb c b'9') || (leb b'a' c && leb c b'f')

-- The regular expression of a token.
unfoldable pub is_valid_token : Text → Bool
unfolding is_hex
is_valid_token token = length token == 64 && every is_hex token

-- `payload.agentName || payload.hostname || 'recovered-agent'`
unfoldable pub recovery_name : RegisterPayload → Text
recovery_name p =
    let host = if is_empty p.hostname then text "recovered-agent" else p.hostname in
    elim p.agent_name [ none ↦ host | some n ↦ if is_empty n then host else n ]

-- `isRecoveryModeActive`, given the stored time of its end.
unfoldable pub is_recovery_mode_active : ℕ → Option ℕ → Bool
is_recovery_mode_active now none = false
is_recovery_mode_active now (some expires_at) = ltb now expires_at

-- The agent that recovery mode inserts, in front of the list.
unfoldable pub recovered : RegisterPayload → (agent_id token_hash name : Text) → Agent
recovered p agent_id token_hash name = record {
  id = agent_id;
  name = name;
  hostname = p.hostname;
  token_hash = token_hash;
  token_prefix = some (take 8 p.token);
  recovery_registered = true;
}

unfoldable pub insert_recovered :
    RegisterPayload → (agent_id token_hash name : Text) → Registry → Registry
unfolding recovered
insert_recovered p agent_id token_hash name r = record {
  agents = recovered p agent_id token_hash name ∷ r.agents;
  recovery_count = r.recovery_count + 1;
}

-- The name of a new agent whose name is taken, by another token.
unfoldable pub suffixed_name : Text → Text → Text
suffixed_name name agent_id = name ++ (text "-" ++ take 8 agent_id)

module _ (bcrypt_compare : Text → Text → Bool) where
  unfoldable pub register_recovered :
      RegisterPayload
      → (agent_id token_hash : Text) → Option Agent
      → Registry
      → Option Text × Registry
  unfolding insert_recovered suffixed_name recovery_name
  register_recovered p agent_id token_hash none r =
      (some agent_id, insert_recovered p agent_id token_hash (recovery_name p) r)
  register_recovered p agent_id token_hash (some duplicate) r =
      if bcrypt_compare p.token duplicate.token_hash then (some duplicate.id, r) else (
        some agent_id,
        insert_recovered p agent_id token_hash (suffixed_name (recovery_name p) agent_id) r,
      )

  -- `token_hash` is what bcrypt makes of the token.
  unfoldable pub try_recovery_register :
      RegisterPayload
      → (active : Bool) → (agent_id token_hash : Text) → Registry
      → Option Text × Registry
  unfolding register_recovered recovery_name is_valid_token
  try_recovery_register p active agent_id token_hash r =
      if not (is_valid_token p.token) || not active
      then (none, r)
      else if leb max_recovery_per_window r.recovery_count
      then (none, r)
      else register_recovered p agent_id token_hash
          (find (λ a. a.name === recovery_name p) r.agents) r

unfoldable pub reset_recovery_count : Registry → Registry
reset_recovery_count r = record r { recovery_count = 0 }

-- A REGISTER: the token is tried first, then recovery mode.
module _ (bcrypt_compare : Text → Text → Bool) (sha256 decode_hex : Text → Text) where
  unfoldable pub register_with :
      RegisterPayload
      → (active : Bool) → (agent_id token_hash : Text) → Option Text
      → Registry
      → Option Text × Registry
  unfolding try_recovery_register
  register_with p active agent_id token_hash (some id) r = (some id, r)
  register_with p active agent_id token_hash none r =
      try_recovery_register bcrypt_compare p active agent_id token_hash r

  unfoldable pub register :
      RegisterPayload
      → (active : Bool) → (agent_id token_hash : Text) → Registry
      → Option Text × Registry
  unfolding register_with authenticate_agent
  register p active agent_id token_hash r =
      register_with p active agent_id token_hash
        (authenticate_agent bcrypt_compare sha256 decode_hex p.token r.agents) r
