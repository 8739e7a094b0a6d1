-- ===== src/Hub/Requests.antt =====
-- Requests that wait for an agent's answer (controller/src/ws/hub.ts: sendAndWait,
-- resolvePendingRequest, and what the end of a connection does to them). A promise that is settled
-- is an entry of `settled`; a pending request is its timer's number. Request ids, which are random
-- UUIDs, are arguments, and so is whether `sendToAgent` sends.
pub mod Pairs
pub mod Settled
pub mod Once
pub mod Drain
use watchwarden.Base.{
  ℕ, ◌+◌, ◌≡◌, Bool, true, false, Option, none, some, List, [], ◌∷◌, ◌++◌, Text, if◌then◌else◌,
  find, ◌==◌,
}
use watchwarden.JsMap
use watchwarden.JsMap.{Map}
use watchwarden.Timers
use watchwarden.Timers.{Timer, Timers}

-- How a promise ends; a resolved one has the payload of the answer.
pub data Outcome : Type 0 where
  resolved : (payload : Text) → Outcome
  timed_out : Outcome
  not_connected : Outcome
  disconnected : Outcome

-- A timer's callback is the id of its request.
pub record Requests : Type 0 where
  pub pending : Map ℕ
  pub timers : Timers Text
  pub settled : List (Text × Outcome)

-- The request ends: its timer is cleared, its entry deleted, its promise settled.
unfoldable pub settle : Text → ℕ → Outcome → Requests → Requests
settle id timer o r = record {
  pending = JsMap.delete id r.pending;
  timers = Timers.clear_timeout timer r.timers;
  settled = r.settled ++ (id, o) ∷ [];
}

unfoldable pub arm : Text → ℕ → Requests → Requests
arm id due r = record r {
  pending = JsMap.set id r.timers.next r.pending;
  timers = Timers.set_timeout id due r.timers;
}

unfoldable pub send_and_wait : Text → ℕ → Bool → Requests → Requests
unfolding settle arm
send_and_wait id due sent r =
    if sent then arm id due r else settle id r.timers.next not_connected (arm id due r)

unfoldable pub resolve_entry : Text → Text → Option ℕ → Requests → Requests
unfolding settle
resolve_entry id payload none r = r
resolve_entry id payload (some timer) r = settle id timer (resolved payload) r

unfoldable pub resolve_pending_request : Text → Text → Requests → Requests
unfolding resolve_entry
resolve_pending_request id payload r = resolve_entry id payload (JsMap.get id r.pending) r

unfoldable pub fire_timer : Option (Timer Text) → Requests → Requests
unfolding settle
fire_timer none r = r
fire_timer (some t) r = settle t.callback t.id timed_out r

-- A timer that is due fires, if it is not cleared.
unfoldable pub fire : ℕ → Requests → Requests
unfolding fire_timer
fire timer r = fire_timer (find (λ t. t.id == timer) r.timers.live) r

unfoldable pub clear_each : Map ℕ → Timers Text → Timers Text
clear_each [] t = t
clear_each ((id, timer) ∷ m) t = clear_each m (Timers.clear_timeout timer t)

unfoldable pub disconnected_each : Map ℕ → List (Text × Outcome)
disconnected_each [] = []
disconnected_each ((id, timer) ∷ m) = (id, disconnected) ∷ disconnected_each m

-- The connection of an agent, any agent, ends: every pending request is rejected.
unfoldable pub reject_all : Requests → Requests
unfolding clear_each disconnected_each
reject_all r = record {
  pending = [];
  timers = clear_each r.pending r.timers;
  settled = r.settled ++ disconnected_each r.pending;
}

pub data Call : Type 0 where
  wait : (id : Text) (due : ℕ) (sent : Bool) → Call
  answer : (id payload : Text) → Call
  timeout : ℕ → Call
  close : Call

unfoldable pub step : Call → Requests → Requests
unfolding send_and_wait resolve_pending_request fire reject_all
step (wait id due sent) r = send_and_wait id due sent r
step (answer id payload) r = resolve_pending_request id payload r
step (timeout timer) r = fire timer r
step close r = reject_all r

unfoldable pub run : List Call → Requests → Requests
unfolding step
run [] r = r
run (c ∷ cs) r = run cs (step c r)

abbrev pub no_requests : Requests
no_requests = record { pending = []; timers = record { next = 0; live = [] }; settled = [] }
