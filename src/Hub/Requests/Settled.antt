-- ===== src/Hub/Requests/Settled.antt =====
-- Every request is settled exactly once (controller/src/ws/hub.ts, sendAndWait and its callbacks).
use mathlib.Core.Path.{subst}
use mathlib.Core.List.{Perm, perm_append_comm, perm_append_singleton, append_assoc, map-append}
use mathlib.Core.List.Perm
use watchwarden.Base.{
  ℕ, ◌<◌, ◌≡◌, refl, sym, ap, ◌∙◌, false, not, some, List, [], ◌∷◌, ◌++◌, map, arith, Text, ◌===◌,
  ◌==◌, keep, All, All-mono, All-keep, All-append,
}
use watchwarden.JsMap
use watchwarden.JsMap.{Map}
use watchwarden.Timers
use watchwarden.Timers.{Timer, Timers}
use watchwarden.Hub.Requests.{
  Requests, Outcome, settle, arm, clear_each, disconnected_each, reject_all,
}
use watchwarden.Hub.Requests.Pairs.{
  pairs, keys-delete, Differ, AllDiffer, keep_other, delete-pairs, AllDiffer-keep,
  AllDiffer-append_one, set-pairs,
}

-- The pending requests are those of the live timers, each with its own, and numbers are not reused.
pub record IsValid (r : Requests) : Type 0 where
  pub agree : r.pending ≡ pairs r.timers.live
  pub differ : AllDiffer r.timers.live
  pub below : All (λ t. t.id < r.timers.next) r.timers.live

-- The ids of the requests that are settled.
abbrev pub settled_ids : Requests → List Text
settled_ids r = map (λ s. s.0) r.settled

-- The ids of the requests that are pending.
abbrev pub pending_ids : Requests → List Text
pending_ids r = JsMap.keys r.pending

settle-IsValid :
    (k : Text) (t : ℕ) (o : Outcome) (r : Requests)
    → IsValid r
    → JsMap.get k r.pending ≡ some t
    → IsValid (settle k t o r)
unfolding settle Timers.clear_timeout
settle-IsValid k t o r v e = record {
  agree =
      ap (JsMap.delete k) v.agree
      ∙ delete-pairs r.timers.live k t v.differ (sym (ap (JsMap.get k) v.agree) ∙ e);
  differ = AllDiffer-keep _ r.timers.live v.differ;
  below = All-keep _ _ r.timers.live v.below;
}

-- No pending request has the id.
abbrev pub IsFresh : Text → Requests → Type 0
IsFresh k r = All (λ t. (t.callback === k) ≡ false) r.timers.live

abbrev new_timer : Text → ℕ → Requests → Timer Text
new_timer k due r = record { id = r.timers.next; due = due; callback = k }

pub keep_first :
    (x : Timer Text) (l : List (Timer Text))
    → All (Differ x) l
    → keep (λ y. not (y.id == x.id)) (x ∷ l) ≡ l
keep_first x l d = ground (arith, keep_other x l d)

pairs-append_one :
    (l : List (Timer Text)) (x : Timer Text)
    → pairs (l ++ x ∷ []) ≡ pairs l ++ (x.callback, x.id) ∷ []
pairs-append_one [] x = refl
pairs-append_one (y ∷ l) x = ap (λ m. (y.callback, y.id) ∷ m) (pairs-append_one l x)

All-Differ_new :
    (l : List (Timer Text)) (x : Timer Text)
    → All (λ t. (t.callback === x.callback) ≡ false) l
    → All (λ t. t.id < x.id) l
    → All (λ t. Differ t x) l
All-Differ_new [] x n b = tt
All-Differ_new (y ∷ l) x (n, ns) (b, bs) = ((n, ground arith), All-Differ_new l x ns bs)

pub arm-agree :
    (k : Text) (due : ℕ) (r : Requests)
    → IsValid r
    → IsFresh k r
    → JsMap.set k r.timers.next r.pending ≡ pairs r.timers.live ++ (k, r.timers.next) ∷ []
arm-agree k due r v n =
    ap (JsMap.set k r.timers.next) v.agree ∙ set-pairs r.timers.live k (new_timer k due r) n

arm-IsValid : (k : Text) (due : ℕ) (r : Requests) → IsValid r → IsFresh k r → IsValid (arm k due r)
unfolding arm Timers.set_timeout
arm-IsValid k due r v n =
    let x = new_timer k due r in
    record {
      agree = arm-agree k due r v n ∙ sym (pairs-append_one r.timers.live x);
      differ =
          AllDiffer-append_one r.timers.live x v.differ (All-Differ_new r.timers.live x n v.below);
      below =
          All-append _ r.timers.live (x ∷ [])
            (All-mono _ _ r.timers.live (λ t h. omega (arith, h)) v.below) (omega arith, tt);
    }

clear_each-pairs :
    (l : List (Timer Text)) (next : ℕ)
    → AllDiffer l
    → clear_each (pairs l) (record { next = next; live = l }) ≡ record { next = next; live = [] }
unfolding clear_each Timers.clear_timeout
clear_each-pairs [] next d = refl
clear_each-pairs (x ∷ l) next (d, ds) =
    ap (λ m. clear_each (pairs l) (record { next = next; live = m })) (keep_first x l d)
    ∙ clear_each-pairs l next ds

pub reject_all-IsValid : (r : Requests) → IsValid r → IsValid (reject_all r)
unfolding reject_all
reject_all-IsValid r v =
    let e =
      ap (λ p. clear_each p r.timers) v.agree
      ∙ clear_each-pairs r.timers.live r.timers.next v.differ in
    record {
      agree = ap (λ t. pairs t.live) (sym e);
      differ = subst (λ t. AllDiffer t.live) (sym e) tt;
      below = subst (λ t. All (λ x. x.id < t.next) t.live) (sym e) tt;
    }

keys-append_one :
    (m : Map ℕ) (k : Text) (t : ℕ) → JsMap.keys (m ++ (k, t) ∷ []) ≡ JsMap.keys m ++ k ∷ []
unfolding JsMap.keys
keys-append_one [] k t = refl
keys-append_one ((j, s) ∷ m) k t = ap (λ l. j ∷ l) (keys-append_one m k t)

pub disconnected_each-keys : (m : Map ℕ) → map (λ s. s.0) (disconnected_each m) ≡ JsMap.keys m
unfolding JsMap.keys disconnected_each
disconnected_each-keys [] = refl
disconnected_each-keys ((j, s) ∷ m) = ap (λ l. j ∷ l) (disconnected_each-keys m)

-- The requests that were made are those that are pending and those that are settled.
pub record Accounts (made : List Text) (r : Requests) : Type 0 where
  pub valid : IsValid r
  pub perm : Perm made (pending_ids r ++ settled_ids r)

-- An id moves from the front to the end.
move_to_end : (k : Text) (xs ys : List Text) → Perm (k ∷ xs ++ ys) (xs ++ (ys ++ k ∷ []))
move_to_end k xs ys =
    subst (λ l. Perm (k ∷ xs ++ ys) l) (append_assoc xs ys (k ∷ []))
      (Perm.symm (perm_append_singleton k (xs ++ ys)))

pub settle-Accounts :
    (k : Text) (t : ℕ) (o : Outcome) (made : List Text) (r : Requests)
    → Accounts made r
    → JsMap.get k r.pending ≡ some t
    → Accounts made (settle k t o r)
unfolding settle
settle-Accounts k t o made r a e = record {
  valid = settle-IsValid k t o r a.valid e;
  perm = Perm.trans a.perm (
      subst
        (λ l. Perm (pending_ids r ++ settled_ids r) (JsMap.keys (JsMap.delete k r.pending) ++ l))
        (sym (map-append (λ s. s.0) r.settled ((k, o) ∷ [])))
        (Perm.trans
          (Perm.append_right (settled_ids r) (
            subst (λ m. Perm (JsMap.keys m) (k ∷ JsMap.keys (JsMap.delete k m))) (sym a.valid.agree)
              (keys-delete r.timers.live k t a.valid.differ
                (sym (ap (JsMap.get k) a.valid.agree) ∙ e))))
          (move_to_end k (JsMap.keys (JsMap.delete k r.pending)) (settled_ids r))));
}

to_middle : (k : Text) (xs ys : List Text) → Perm (xs ++ ys ++ k ∷ []) (xs ++ k ∷ [] ++ ys)
to_middle k xs ys =
    subst (λ l. Perm l (xs ++ k ∷ [] ++ ys)) (sym (append_assoc xs ys (k ∷ [])))
      (subst (λ l. Perm (xs ++ (ys ++ k ∷ [])) l) (sym (append_assoc xs (k ∷ []) ys))
        (Perm.append_left xs (perm_append_comm ys (k ∷ []))))

arm-keys :
    (k : Text) (due : ℕ) (r : Requests)
    → IsValid r
    → IsFresh k r
    → JsMap.keys (JsMap.set k r.timers.next r.pending) ≡ pending_ids r ++ k ∷ []
arm-keys k due r v n =
    ap JsMap.keys (arm-agree k due r v n)
    ∙ keys-append_one (pairs r.timers.live) k r.timers.next
    ∙ ap (λ m. JsMap.keys m ++ k ∷ []) (sym v.agree)

pub arm-Accounts :
    (k : Text) (due : ℕ) (made : List Text) (r : Requests)
    → Accounts made r
    → IsFresh k r
    → Accounts (made ++ k ∷ []) (arm k due r)
unfolding arm
arm-Accounts k due made r a n = record {
  valid = arm-IsValid k due r a.valid n;
  perm =
      subst (λ l. Perm (made ++ k ∷ []) (l ++ settled_ids r)) (sym (arm-keys k due r a.valid n))
        (Perm.trans (Perm.append_right (k ∷ []) a.perm)
          (to_middle k (pending_ids r) (settled_ids r)));
}
