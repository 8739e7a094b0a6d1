-- ===== src/Hub/Requests/Once.antt =====
-- No request is lost and none is settled twice (controller/src/ws/hub.ts, sendAndWait and its
-- callbacks).
use mathlib.Core.Path.{subst}
use mathlib.Core.List.{
  Perm, Nodup, Mem, Nodup-cons, perm_middle, perm_append_comm, append_assoc, append-nil, map-append,
  mem-append, mem-cons,
}
use mathlib.Core.List.Perm
use mathlib.Core.Logic.Or
use watchwarden.Base.{
  ℕ, ◌≡◌, refl, sym, ap, ◌∙◌, Bool, true, false, Option, none, some, List, [], ◌∷◌, ◌++◌, arith,
  Text, ◌===◌, ===_refl, ===_false, ◌==◌, find, All,
}
use watchwarden.JsMap
use watchwarden.Timers.{Timer}
use watchwarden.Hub.Requests.{
  Requests, not_connected, resolved, timed_out, arm, disconnected_each, resolve_entry, fire_timer,
  send_and_wait, resolve_pending_request, fire, reject_all, Call, wait, answer, timeout, close,
  step, run, no_requests,
}
use watchwarden.Hub.Requests.Pairs.{pairs, get-find}
use watchwarden.Hub.Requests.Settled.{
  Accounts, pending_ids, settled_ids, IsFresh, settle-Accounts, arm-Accounts, arm-agree,
  reject_all-IsValid, disconnected_each-keys,
}

reject_all-Accounts :
    (made : List Text) (r : Requests) → Accounts made r → Accounts made (reject_all r)
unfolding reject_all JsMap.keys
reject_all-Accounts made r a = record {
  valid = reject_all-IsValid r a.valid;
  perm = Perm.trans a.perm (
      subst (λ l. Perm (pending_ids r ++ settled_ids r) l)
        (sym (
          map-append (λ s. s.0) r.settled (disconnected_each r.pending)
          ∙ ap (λ l. settled_ids r ++ l) (disconnected_each-keys r.pending)))
        (perm_append_comm (pending_ids r) (settled_ids r)));
}

resolve-Accounts :
    (k payload : Text) (made : List Text) (r : Requests) (o : Option ℕ)
    → JsMap.get k r.pending ≡ o
    → Accounts made r
    → Accounts made (resolve_entry k payload o r)
unfolding resolve_entry
resolve-Accounts k payload made r none e a = a
resolve-Accounts k payload made r (some t) e a = settle-Accounts k t (resolved payload) made r a e

pub fire-Accounts :
    (t : ℕ) (made : List Text) (r : Requests) (o : Option (Timer Text))
    → find (λ x. x.id == t) r.timers.live ≡ o
    → Accounts made r
    → Accounts made (fire_timer o r)
unfolding fire_timer
fire-Accounts t made r none e a = a
fire-Accounts t made r (some x) e a = settle-Accounts x.callback x.id timed_out made r a (
    ap (JsMap.get x.callback) a.valid.agree
    ∙ get-find (λ x. x.id == t) r.timers.live x a.valid.differ e)

get-append_new :
    (l : List (Timer Text)) (k : Text) (t : ℕ)
    → All (λ x. (x.callback === k) ≡ false) l
    → JsMap.get k (pairs l ++ (k, t) ∷ []) ≡ some t
unfolding JsMap.get
get-append_new [] k t n = ground (arith, ===_refl k)
get-append_new (x ∷ l) k t (n, ns) = ground (arith, get-append_new l k t ns)

send_and_wait-Accounts :
    (k : Text) (due : ℕ) (sent : Bool) (made : List Text) (r : Requests)
    → Accounts made r
    → IsFresh k r
    → Accounts (made ++ k ∷ []) (send_and_wait k due sent r)
unfolding send_and_wait arm
send_and_wait-Accounts k due true made r a n = arm-Accounts k due made r a n
send_and_wait-Accounts k due false made r a n =
    settle-Accounts k r.timers.next not_connected (made ++ k ∷ []) (arm k due r)
      (arm-Accounts k due made r a n)
      (ap (JsMap.get k) (arm-agree k due r a.valid n)
        ∙ get-append_new r.timers.live k r.timers.next n)

-- The id of the request that a call makes.
abbrev made_by : Call → List Text
made_by (wait id due sent) = id ∷ []
made_by _ = []

-- The ids of the requests that calls make, in order.
abbrev pub requested : List Call → List Text
requested [] = []
requested (c ∷ cs) = made_by c ++ requested cs

fresh_of :
    (k : Text) (made : List Text) (l : List (Timer Text))
    → ((x : Text) → Mem x (JsMap.keys (pairs l)) → Mem x made)
    → ¬ Mem k made
    → All (λ t. (t.callback === k) ≡ false) l
unfolding JsMap.keys
fresh_of k made [] f n = tt
fresh_of k made (x ∷ l) f n = (
  ===_false x.callback k
      (λ e. n (subst (λ y. Mem y made) e (f x.callback (mem-cons.1 (Or.inl refl))))),
  fresh_of k made l (λ y m. f y (mem-cons.1 (Or.inr m))) n,
)

-- An id that no request had before is not pending.
IsFresh-of :
    (k : Text) (made : List Text) (r : Requests) → Accounts made r → ¬ Mem k made → IsFresh k r
IsFresh-of k made r a n =
    fresh_of k made r.timers.live
      (λ x m.
        (Perm.mem_iff a.perm).1
          (mem-append.1 (Or.inl (subst (λ p. Mem x (JsMap.keys p)) (sym a.valid.agree) m))))
      n

step-Accounts :
    (c : Call) (made rest : List Text) (r : Requests)
    → Accounts made r
    → Nodup (made ++ (made_by c ++ rest))
    → Accounts (made ++ made_by c) (step c r)
unfolding step resolve_pending_request fire
step-Accounts (wait id due sent) made rest r a n = send_and_wait-Accounts id due sent made r a (
    IsFresh-of id made r a
      (λ m. (Nodup-cons.0 (Perm.nodup (perm_middle made rest) n)).0 (mem-append.1 (Or.inl m))))
step-Accounts (answer id payload) made rest r a n =
    subst (λ l. Accounts l (step (answer id payload) r)) (sym (append-nil made))
      (resolve-Accounts id payload made r (JsMap.get id r.pending) refl a)
step-Accounts (timeout t) made rest r a n =
    subst (λ l. Accounts l (step (timeout t) r)) (sym (append-nil made))
      (fire-Accounts t made r (find (λ x. x.id == t) r.timers.live) refl a)
step-Accounts close made rest r a n =
    subst (λ l. Accounts l (step close r)) (sym (append-nil made)) (reject_all-Accounts made r a)

pub run-Accounts :
    (cs : List Call) (made : List Text) (r : Requests)
    → Accounts made r
    → Nodup (made ++ requested cs)
    → Accounts (made ++ requested cs) (run cs r)
unfolding run
run-Accounts [] made r a n = subst (λ l. Accounts l r) (sym (append-nil made)) a
run-Accounts (c ∷ cs) made r a n =
    let assoc = append_assoc made (made_by c) (requested cs) in
    subst (λ l. Accounts l (run cs (step c r))) assoc
      (run-Accounts cs (made ++ made_by c) (step c r) (step-Accounts c made (requested cs) r a n)
        (subst Nodup (sym assoc) n))

abbrev pub no_requests-Accounts : Accounts [] no_requests
unfolding JsMap.keys
no_requests-Accounts = record {
  valid = record { agree = refl; differ = tt; below = tt };
  perm = Perm.refl [];
}

-- For any sequence of requests with distinct ids, answers, timers that fire and connections that
-- end: each request is pending or settled, exactly once.
pub run-once :
    (cs : List Call)
    → Nodup (requested cs)
    → Perm (requested cs) (pending_ids (run cs no_requests) ++ settled_ids (run cs no_requests))
run-once cs n = (run-Accounts cs [] no_requests no_requests-Accounts n).perm
