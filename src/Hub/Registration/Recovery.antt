-- ===== src/Hub/Registration/Recovery.antt =====
-- The bound on recovery mode (controller/src/ws/hub.ts, tryRecoveryRegister).
use watchwarden.Base.{◌+◌, ◌≤◌, ◌≡◌, Bool, List, [], ◌∷◌, Text, length}
use watchwarden.Hub.Registration.{Registry, RegisterPayload, max_recovery_per_window, register}

-- A REGISTER that arrives, with what it finds and what is drawn for it.
pub record Arrival : Type 0 where
  pub payload : RegisterPayload
  pub active : Bool
  pub agent_id : Text
  pub token_hash : Text

module _ (bcrypt_compare : Text → Text → Bool) (sha256 decode_hex : Text → Text) where
  unfoldable pub run : List Arrival → Registry → Registry
  unfolding register
  run [] r = r
  run (x ∷ xs) r =
      run xs
        (register bcrypt_compare sha256 decode_hex x.payload x.active x.agent_id x.token_hash r).1

-- What a registration may do to the registry: each agent that it adds is counted, and the count
-- stays within the bound.
abbrev Grows : Registry → Registry → Type 0
Grows r s =
    (length s.agents + r.recovery_count ≡ length r.agents + s.recovery_count)
    × (r.recovery_count ≤ max_recovery_per_window → s.recovery_count ≤ max_recovery_per_window)
