-- ===== src/Notifier/Dispatch/Isolated.antt =====
-- The channels do not disturb one another (controller/src/notifications/notifier.ts).
use mathlib.Core.List.{append-nil, append_assoc, append_cancel_right}
use watchwarden.Base.{
  ℕ, ◌-◌, ◌≡◌, refl, sym, ap, ◌∙◌, Bool, true, false, not, ◌&&◌, Option, none, some, List, [], ◌∷◌,
  ◌++◌, map, arith, Text, text, ◌===◌, ===_iff, ltb, if◌then◌else◌, or_else, true_is_not_false,
  if_cases, Bool-cases, inl, inr,
}
use watchwarden.JsMap
use watchwarden.JsMap.{Map, get-set}
use watchwarden.JsMap.Members.{are_distinct}
use watchwarden.Notifier.Dispatch.{
  Channel, Round, LogEntry, Notifier, rate_key, is_limited, write_log, send_to_channel, try_channel,
  dispatch, rate_limit_ms,
}

-- Whether a channel that is on is tried, by the times of the last dispatches: its list of events is
-- broken, or it has the type, which is not limited.
abbrev pub subscribes : Text → Map ℕ → Round → Option (List Text) → Bool
subscribes event_type last r none = true
subscribes event_type last r (some events) =
    JsMap.member event_type events && not (is_limited last event_type r.channel r.asked_at)

abbrev pub is_tried : Text → Map ℕ → Round → Bool
is_tried event_type last r = r.channel.enabled && subscribes event_type last r r.channel.events

abbrev pub error_of : Option (List Text) → Option Text → Option Text
error_of none error = some (text "SyntaxError")
error_of (some events) error = error

abbrev pub entry_of : Text → Round → LogEntry
entry_of event_type r = record {
  channel_id = r.channel.id;
  channel_name = r.channel.name;
  event_type = event_type;
  error = error_of r.channel.events r.error;
}

abbrev pub channel_ids : List Round → List Text
channel_ids = map (λ r. r.channel.id)

-- The entries of the rounds that are tried.
abbrev pub entries : Text → Map ℕ → List Round → List LogEntry
entries event_type last [] = []
entries event_type last (r ∷ rs) =
    if is_tried event_type last r
    then entry_of event_type r ∷ entries event_type last rs
    else entries event_type last rs

abbrev entry_with : Text → Round → Option (List Text) → LogEntry
entry_with event_type r o = record {
  channel_id = r.channel.id;
  channel_name = r.channel.name;
  event_type = event_type;
  error = error_of o r.error;
}

rate_key-other :
    (a b : Channel) (event_type : Text)
    → (a.id === b.id) ≡ false
    → (rate_key a event_type === rate_key b event_type) ≡ false
rate_key-other a b event_type h =
    elim (Bool-cases (rate_key a event_type === rate_key b event_type)) [
      | inr other ↦ other
      | inl same ↦ absurd (
          true_is_not_false
            ((===_iff a.id b.id).1
              (append_cancel_right _ _ _ ((===_iff (rate_key a event_type) _).0 same)))
            h)
    ]

send_to_channel-log :
    (event_type : Text) (r : Round) (o : Option Text) (n : Notifier)
    → r.error ≡ o
    → (send_to_channel event_type r n).log
      ≡ n.log
        ++ record {
          channel_id = r.channel.id;
          channel_name = r.channel.name;
          event_type = event_type;
          error = o;
        }
          ∷ []
unfolding send_to_channel write_log
send_to_channel-log event_type r none n e = rw e refl
send_to_channel-log event_type r (some x) n e = rw e refl

try_channel-log :
    (event_type : Text) (r : Round) (o : Option (List Text)) (n : Notifier)
    → (try_channel event_type r o n).log
      ≡ n.log
        ++ (if subscribes event_type n.last_dispatch r o
            then entry_with event_type r o ∷ []
            else [])
unfolding try_channel
try_channel-log event_type r none n = unfold write_log in refl
try_channel-log event_type r (some events) n = elim (Bool-cases (JsMap.member event_type events)) [
  | inr no_event ↦ rw no_event (sym (append-nil n.log))
  | inl has ↦ elim (Bool-cases (is_limited n.last_dispatch event_type r.channel r.asked_at)) [
    | inl limited ↦ rw (has, limited) (sym (append-nil n.log))
    | inr free ↦ rw (has, free) (send_to_channel-log event_type r r.error n refl)
  ]
]

-- The time of another channel's last dispatch stays.
send_to_channel-get :
    (event_type : Text) (r : Round) (o : Option Text) (n : Notifier) (c : Channel)
    → r.error ≡ o
    → (r.channel.id === c.id) ≡ false
    → JsMap.get (rate_key c event_type) (send_to_channel event_type r n).last_dispatch
      ≡ JsMap.get (rate_key c event_type) n.last_dispatch
unfolding send_to_channel write_log
send_to_channel-get event_type r (some x) n c e h = rw e refl
send_to_channel-get event_type r none n c e h =
    rw
      (e, get-set (rate_key r.channel event_type) (rate_key c event_type) r.sent_at n.last_dispatch)
      (rw (rate_key-other r.channel c event_type h) refl)

try_channel-get :
    (event_type : Text) (r : Round) (o : Option (List Text)) (n : Notifier) (c : Channel)
    → (r.channel.id === c.id) ≡ false
    → JsMap.get (rate_key c event_type) (try_channel event_type r o n).last_dispatch
      ≡ JsMap.get (rate_key c event_type) n.last_dispatch
unfolding try_channel
try_channel-get event_type r none n c h = unfold write_log in refl
try_channel-get event_type r (some events) n c h =
    let Same = λ (m : Notifier).
      JsMap.get (rate_key c event_type) m.last_dispatch
      ≡ JsMap.get (rate_key c event_type) n.last_dispatch in
    if_cases Same (not (JsMap.member event_type events)) refl (
      if_cases Same (is_limited n.last_dispatch event_type r.channel r.asked_at) refl
        (send_to_channel-get event_type r r.error n c refl h))

abbrev round_of : Text → Round → Notifier → Notifier
round_of event_type r n =
    if not r.channel.enabled then n else try_channel event_type r r.channel.events n

subscribes-same :
    (event_type : Text) (last next : Map ℕ) (r : Round) (o : Option (List Text))
    → JsMap.get (rate_key r.channel event_type) next
      ≡ JsMap.get (rate_key r.channel event_type) last
    → subscribes event_type next r o ≡ subscribes event_type last r o
subscribes-same event_type last next r none e = refl
subscribes-same event_type last next r (some events) e =
    ap (λ b. JsMap.member event_type events && not b)
      (unfold is_limited in
        ap
          (λ t.
            event_type === text "update_available" && ltb (r.asked_at - or_else t 0) rate_limit_ms)
          e)

-- A round changes nothing for the channels of other rounds.
entries-same :
    (event_type : Text) (r : Round) (n : Notifier) (rs : List Round)
    → JsMap.member r.channel.id (channel_ids rs) ≡ false
    → entries event_type (round_of event_type r n).last_dispatch rs
      ≡ entries event_type n.last_dispatch rs
unfolding JsMap.member
entries-same event_type r n [] h = refl
entries-same event_type r n (s ∷ rs) h =
    let apart : (r.channel.id === s.channel.id) ≡ false =
      ground (arith, ===_iff r.channel.id s.channel.id, ===_iff s.channel.id r.channel.id) in
    let same =
      subscribes-same event_type n.last_dispatch (round_of event_type r n).last_dispatch s
        s.channel.events
        (if_cases {A = Notifier}
          (λ m.
            JsMap.get (rate_key s.channel event_type) m.last_dispatch
            ≡ JsMap.get (rate_key s.channel event_type) n.last_dispatch)
          (not r.channel.enabled) refl
          (try_channel-get event_type r r.channel.events n s.channel apart)) in
    ground (arith, same, entries-same event_type r n rs (ground arith))

tried-log :
    (event_type : Text) (r : Round) (n : Notifier) (enabled : Bool)
    → (if not enabled then n else try_channel event_type r r.channel.events n).log
      ≡ n.log
        ++ (if enabled && subscribes event_type n.last_dispatch r r.channel.events
            then entry_of event_type r ∷ []
            else [])
tried-log event_type r n true = try_channel-log event_type r r.channel.events n
tried-log event_type r n false = sym (append-nil n.log)

entries-head :
    (l : List LogEntry) (b : Bool) (e : LogEntry) (es : List LogEntry)
    → (l ++ (if b then e ∷ [] else [])) ++ es ≡ l ++ (if b then e ∷ es else es)
entries-head l true e es = append_assoc l (e ∷ []) es
entries-head l false e es = ap (λ x. x ++ es) (append-nil l)

-- The dispatch of an event to channels with distinct ids writes one entry for each channel that is
-- tried, in their order, and no other, by the times that were kept before the dispatch: each channel
-- that is on and has the event among its events, unless it is an "update_available" within 60 s of
-- the last one that the channel got, and each that is on and has a broken list. A channel whose sender
-- fails, or whose list is broken, changes nothing for the others.
pub dispatch_lem :
    (event_type : Text) (rs : List Round) (n : Notifier)
    → are_distinct (channel_ids rs) ≡ true
    → (dispatch event_type rs n).log ≡ n.log ++ entries event_type n.last_dispatch rs
unfolding dispatch
dispatch_lem event_type [] n h = sym (append-nil n.log)
dispatch_lem event_type (r ∷ rs) n h =
    dispatch_lem event_type rs (round_of event_type r n) (ground arith)
    ∙ ap (λ es. (round_of event_type r n).log ++ es) (entries-same event_type r n rs (ground arith))
    ∙ ap (λ l. l ++ entries event_type n.last_dispatch rs)
        (tried-log event_type r n r.channel.enabled)
    ∙ entries-head n.log (is_tried event_type n.last_dispatch r) (entry_of event_type r)
        (entries event_type n.last_dispatch rs)
