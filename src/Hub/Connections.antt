-- ===== src/Hub/Connections.antt =====
-- The connections of the agents (controller/src/ws/hub.ts: REGISTER, HEARTBEAT, UPDATE_PROGRESS, the
-- close handler, sendToAgent, checkHeartbeats, dispose), with the agents' statuses in the database.
-- A socket is its number; the sockets that are open are an argument. A handler's database writes
-- are taken to follow its change of state at once, in the order of the agent's queue.
pub mod Statuses
use watchwarden.Base.{
  ℕ, ◌+◌, ◌-◌, ◌≡◌, Bool, true, false, not, ◌&&◌, ◌||◌, Option, none, some, List, [], ◌∷◌, ◌++◌,
  Text, text, ◌===◌, ltb, leb, ◌==◌, if◌then◌else◌, or_else, any, keep, map,
}
use watchwarden.JsMap
use watchwarden.JsMap.{Map}
use watchwarden.Semver.{starts_with}

pub record ConnectedAgent : Type 0 where
  pub ws : ℕ
  pub last_seen : ℕ

-- `updateAgentStatus` and `markContainersUnknown` write `statuses` and `unknown`; `closed` are the
-- sockets that the hub has closed, each with its code; `sent` are the UPDATE_PROGRESS events.
pub record Hub : Type 0 where
  pub connections : Map ConnectedAgent
  pub auto_update_in_flight : List Text
  pub progress_last_sent : Map ℕ
  pub statuses : Map Bool
  pub unknown : List Text
  pub closed : List (ℕ × ℕ)
  pub progress : List (Text × ℕ)

-- The old socket of an agent that connects again.
unfoldable pub replaced : ℕ → Option ConnectedAgent → List (ℕ × ℕ)
replaced ws none = []
replaced ws (some old) = if old.ws == ws then [] else (old.ws, 1001) ∷ []

-- REGISTER, once the agent is known.
unfoldable pub register : Text → (ws now : ℕ) → Hub → Hub
unfolding replaced
register agent_id ws now h = record h {
  connections = JsMap.set agent_id (record { ws = ws; last_seen = now }) h.connections;
  auto_update_in_flight = JsMap.remove agent_id h.auto_update_in_flight;
  statuses = JsMap.set agent_id true h.statuses;
  closed = h.closed ++ replaced ws (JsMap.get agent_id h.connections);
}

-- `conn.lastSeen = now`, of the connection that stands in the map.
unfoldable pub see : Text → ℕ → Option ConnectedAgent → Map ConnectedAgent → Map ConnectedAgent
see agent_id now none m = m
see agent_id now (some conn) m = JsMap.set agent_id (record conn { last_seen = now }) m

unfoldable pub heartbeat : Text → ℕ → Hub → Hub
unfolding see
heartbeat agent_id now h = record h {
  connections = see agent_id now (JsMap.get agent_id h.connections) h.connections;
  statuses = JsMap.set agent_id true h.statuses;
}

-- The agent is offline.
unfoldable pub go_offline : Text → Hub → Hub
go_offline agent_id h = record h {
  connections = JsMap.delete agent_id h.connections;
  statuses = JsMap.set agent_id false h.statuses;
  unknown = h.unknown ++ agent_id ∷ [];
}

-- The throttle's entries of other agents.
other_keys : Text → Map ℕ → Map ℕ
other_keys agent_id [] = []
other_keys agent_id ((k, t) ∷ m) =
    if starts_with (agent_id ++ text ":") k
    then other_keys agent_id m
    else (k, t) ∷ other_keys agent_id m

unfoldable pub close_current : Text → ℕ → Option ConnectedAgent → Hub → Hub
unfolding go_offline other_keys
close_current agent_id ws none h = h
close_current agent_id ws (some current) h =
    if current.ws == ws
    then go_offline agent_id (record h {
      auto_update_in_flight = JsMap.remove agent_id h.auto_update_in_flight;
      progress_last_sent = other_keys agent_id h.progress_last_sent;
    })
    else h

-- The close event of a socket that an agent has registered.
unfoldable pub on_close : Text → ℕ → Hub → Hub
unfolding close_current
on_close agent_id ws h = close_current agent_id ws (JsMap.get agent_id h.connections) h

-- One entry of the sweep.
unfoldable pub sweep_one : ℕ → Text → ConnectedAgent → Hub → Hub
unfolding go_offline
sweep_one now id conn h =
    if ltb 60000 (now - conn.last_seen)
    then go_offline id (record h { closed = h.closed ++ (conn.ws, 4003) ∷ [] })
    else h

unfoldable pub sweep : ℕ → Map ConnectedAgent → Hub → Hub
unfolding sweep_one
sweep now [] h = h
sweep now ((id, conn) ∷ m) h = sweep now m (sweep_one now id conn h)

unfoldable pub check_heartbeats : ℕ → Hub → Hub
unfolding sweep
check_heartbeats now h = sweep now h.connections h

-- UPDATE_PROGRESS, at most one in 100 ms for a container.
unfoldable pub update_progress : Text → Text → ℕ → Hub → Hub
update_progress agent_id container_id now h =
    let key = agent_id ++ (text ":" ++ container_id) in
    if leb 100 (now - or_else (JsMap.get key h.progress_last_sent) 0)
    then record h {
      progress_last_sent = JsMap.set key now h.progress_last_sent;
      progress = h.progress ++ (key, now) ∷ [];
    }
    else h

-- `sendToAgent`: whether the message is sent.
unfoldable pub send_to_agent : Text → (is_open : ℕ → Bool) → Hub → Bool
send_to_agent agent_id is_open h = elim (JsMap.get agent_id h.connections) [
  | none ↦ false
  | some conn ↦ is_open conn.ws
]

unfoldable pub get_online_agent_ids : Hub → List Text
get_online_agent_ids h = JsMap.keys h.connections

pub data Event : Type 0 where
  registered : (agent_id : Text) (ws now : ℕ) → Event
  heard : (agent_id : Text) (now : ℕ) → Event
  socket_closed : (agent_id : Text) (ws : ℕ) → Event
  swept : (now : ℕ) → Event
  progressed : (agent_id container_id : Text) (now : ℕ) → Event

unfoldable pub step : Event → Hub → Hub
step (registered agent_id ws now) h = register agent_id ws now h
step (heard agent_id now) h = heartbeat agent_id now h
step (socket_closed agent_id ws) h = on_close agent_id ws h
step (swept now) h = check_heartbeats now h
step (progressed agent_id container_id now) h = update_progress agent_id container_id now h

unfoldable pub run : List Event → Hub → Hub
unfolding step
run [] h = h
run (e ∷ es) h = run es (step e h)

abbrev pub new_hub : Hub
new_hub = record {
  connections = [];
  auto_update_in_flight = [];
  progress_last_sent = [];
  statuses = [];
  unknown = [];
  closed = [];
  progress = [];
}
