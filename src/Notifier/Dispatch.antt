-- ===== src/Notifier/Dispatch.antt =====
-- The dispatch of an event to the channels (controller/src/notifications/notifier.ts). What a sender does
-- with an event is given by an outcome of its channel, and so are the times before and after it. A
-- decryption that fails is a failure of the sender.
pub mod Isolated
use watchwarden.Base.{
  ℕ, ◌-◌, Bool, true, false, not, ◌&&◌, Option, none, some, List, [], ◌∷◌, ◌++◌, Text, text, ◌===◌,
  ltb, if◌then◌else◌, or_else,
}
use watchwarden.JsMap
use watchwarden.JsMap.{Map}

-- `events` is the list whose JSON the table holds, or none if the text is not JSON.
pub record Channel : Type 0 where
  pub id : Text
  pub name : Text
  pub enabled : Bool
  pub events : Option (List Text)

-- One round of the loop: the error of the sender, if it throws.
pub record Round : Type 0 where
  pub channel : Channel
  pub asked_at : ℕ
  pub error : Option Text
  pub sent_at : ℕ

pub record LogEntry : Type 0 where
  pub channel_id : Text
  pub channel_name : Text
  pub event_type : Text
  pub error : Option Text

pub record Notifier : Type 0 where
  pub last_dispatch : Map ℕ
  pub log : List LogEntry

abbrev pub rate_limit_ms : ℕ
rate_limit_ms = 60000

abbrev pub rate_key : Channel → Text → Text
rate_key channel event_type = channel.id ++ (text ":" ++ event_type)

-- Whether an event of the type waits for the channel's cooldown.
unfoldable pub is_limited : Map ℕ → Text → Channel → ℕ → Bool
is_limited last event_type channel now =
    event_type === text "update_available"
    && ltb (now - or_else (JsMap.get (rate_key channel event_type) last) 0) rate_limit_ms

unfoldable pub write_log : Channel → Text → Option Text → Notifier → Notifier
write_log channel event_type error n = record n {
  log =
      n.log
      ++ record {
        channel_id = channel.id;
        channel_name = channel.name;
        event_type = event_type;
        error = error;
      }
        ∷ [];
}

-- The send, and what is kept of it.
unfoldable pub send_to_channel : Text → Round → Notifier → Notifier
unfolding write_log
send_to_channel event_type r n = elim r.error [
  | some e ↦ write_log r.channel event_type (some e) n
  | none ↦ write_log r.channel event_type none (record n {
    last_dispatch = JsMap.set (rate_key r.channel event_type) r.sent_at n.last_dispatch;
  })
]

unfoldable pub try_channel : Text → Round → Option (List Text) → Notifier → Notifier
unfolding write_log is_limited send_to_channel
try_channel event_type r none n = write_log r.channel event_type (some (text "SyntaxError")) n
try_channel event_type r (some events) n =
    if not (JsMap.member event_type events)
    then n
    else if is_limited n.last_dispatch event_type r.channel r.asked_at
    then n
    else send_to_channel event_type r n

unfoldable pub dispatch : Text → List Round → Notifier → Notifier
unfolding try_channel
dispatch event_type [] n = n
dispatch event_type (r ∷ rs) n =
    dispatch event_type rs
      (if not r.channel.enabled then n else try_channel event_type r r.channel.events n)
