-- ===== src/Hub/Requests/Pairs.antt =====
-- The pending requests and the live timers agree, entry by entry (controller/src/ws/hub.ts).
use mathlib.Core.Path.{subst}
use mathlib.Core.List.{Perm}
use mathlib.Core.List.Perm
use watchwarden.Base.{
  ℕ, ◌≡◌, refl, sym, ap, ◌∙◌, Bool, true, false, not, some, List, [], ◌∷◌, ◌++◌, map, arith, Text,
  ◌===◌, ===_iff, ===_refl, ◌==◌, if◌then◌else◌, find, find_sound, keep, All, All-keep, All-append,
  Bool-cases, inl, inr,
}
use watchwarden.JsMap
use watchwarden.JsMap.{Map}
use watchwarden.Timers.{Timer}

-- The entry of the request that a timer ends.
abbrev pub pairs : List (Timer Text) → Map ℕ
pairs = map (λ t. (t.callback, t.id))

abbrev pub Differ : Timer Text → Timer Text → Type 0
Differ x y = ((x.callback === y.callback) ≡ false) × ((x.id == y.id) ≡ false)

abbrev pub AllDiffer : List (Timer Text) → Type 0
AllDiffer [] = Unit
AllDiffer (x ∷ xs) = All (Differ x) xs × AllDiffer xs

pub keep_other :
    (x : Timer Text) (l : List (Timer Text))
    → All (Differ x) l
    → keep (λ y. not (y.id == x.id)) l ≡ l
keep_other x [] d = refl
keep_other x (y ∷ l) (d, ds) = ground (arith, keep_other x l ds)

pub delete_other :
    (x : Timer Text) (l : List (Timer Text))
    → All (Differ x) l
    → JsMap.delete x.callback (pairs l) ≡ pairs l
unfolding JsMap.delete
delete_other x [] d = refl
delete_other x (y ∷ l) (d, ds) =
    ground
      (arith, delete_other x l ds, ===_iff x.callback y.callback, ===_iff y.callback x.callback)

-- A number that a later timer has is not that of an earlier one.
get-Differ :
    (x : Timer Text) (l : List (Timer Text)) (k : Text) (t : ℕ)
    → All (Differ x) l
    → JsMap.get k (pairs l) ≡ some t
    → (x.id == t) ≡ false
unfolding JsMap.get
get-Differ x [] k t d e = cc
get-Differ x (y ∷ l) k t (d, ds) e = ground (arith, get-Differ x l k t ds)

delete-pairs_head :
    (x : Timer Text) (l : List (Timer Text))
    → All (Differ x) l
    → JsMap.delete x.callback (pairs (x ∷ l)) ≡ pairs (keep (λ y. not (y.id == x.id)) (x ∷ l))
unfolding JsMap.delete
delete-pairs_head x l d =
    ground (arith, ===_refl x.callback, delete_other x l d ∙ sym (ap pairs (keep_other x l d)))

delete-pairs_tail :
    (x : Timer Text) (l : List (Timer Text)) (k : Text) (t : ℕ)
    → (x.callback === k) ≡ false
    → (x.id == t) ≡ false
    → JsMap.delete k (pairs l) ≡ pairs (keep (λ y. not (y.id == t)) l)
    → JsMap.delete k (pairs (x ∷ l)) ≡ pairs (keep (λ y. not (y.id == t)) (x ∷ l))
unfolding JsMap.delete
delete-pairs_tail x l k t n m e = ground (arith, e)

pub get-head :
    (x : Timer Text) (l : List (Timer Text)) (k : Text) (t : ℕ)
    → JsMap.get k (pairs (x ∷ l)) ≡ some t
    → (x.callback === k) ≡ true
    → x.id ≡ t
unfolding JsMap.get
get-head x l k t e h = ground arith

pub get-tail :
    (x : Timer Text) (l : List (Timer Text)) (k : Text) (t : ℕ)
    → JsMap.get k (pairs (x ∷ l)) ≡ some t
    → (x.callback === k) ≡ false
    → JsMap.get k (pairs l) ≡ some t
unfolding JsMap.get
get-tail x l k t e h = ground arith

-- To delete a request's entry is to clear its timer.
pub delete-pairs :
    (l : List (Timer Text)) (k : Text) (t : ℕ)
    → AllDiffer l
    → JsMap.get k (pairs l) ≡ some t
    → JsMap.delete k (pairs l) ≡ pairs (keep (λ y. not (y.id == t)) l)
unfolding JsMap.get
delete-pairs [] k t d e = cc
delete-pairs (x ∷ l) k t (d, ds) e = elim (Bool-cases (x.callback === k)) [
  | inl same ↦
      subst (λ j. JsMap.delete j (pairs (x ∷ l)) ≡ pairs (keep (λ y. not (y.id == t)) (x ∷ l)))
        ((===_iff x.callback k).0 same)
        (subst
          (λ i.
            JsMap.delete x.callback (pairs (x ∷ l)) ≡ pairs (keep (λ y. not (y.id == i)) (x ∷ l)))
          (get-head x l k t e same) (delete-pairs_head x l d))
  | inr other ↦
      let tail = get-tail x l k t e other in
      delete-pairs_tail x l k t other (get-Differ x l k t d tail) (delete-pairs l k t ds tail)
]

pub AllDiffer-keep :
    (p : Timer Text → Bool) (l : List (Timer Text)) → AllDiffer l → AllDiffer (keep p l)
AllDiffer-keep p [] d = tt
AllDiffer-keep p (x ∷ l) (d, ds) = ground (arith, AllDiffer-keep p l ds, All-keep (Differ x) p l d)

some_same : {x y : Timer Text} → some y ≡ some x → y ≡ x
some_same e = cc

find_first :
    (p : Timer Text → Bool) (y : Timer Text) (l : List (Timer Text)) (x : Timer Text)
    → find p (y ∷ l) ≡ some x
    → p y ≡ true
    → y ≡ x
find_first p y l x e h = some_same (sym (ap (λ b. if b then some y else find p l) h) ∙ e)

find_later :
    (p : Timer Text → Bool) (y : Timer Text) (l : List (Timer Text)) (x : Timer Text)
    → find p (y ∷ l) ≡ some x
    → p y ≡ false
    → find p l ≡ some x
find_later p y l x e h = sym (ap (λ b. if b then some y else find p l) h) ∙ e

get-head_same :
    (x : Timer Text) (l : List (Timer Text)) → JsMap.get x.callback (pairs (x ∷ l)) ≡ some x.id
unfolding JsMap.get
get-head_same x l = ground (arith, ===_refl x.callback)

get-tail_same :
    (x y : Timer Text) (l : List (Timer Text))
    → (y.callback === x.callback) ≡ false
    → JsMap.get x.callback (pairs l) ≡ some x.id
    → JsMap.get x.callback (pairs (y ∷ l)) ≡ some x.id
unfolding JsMap.get
get-tail_same x y l n e = ground (arith, e)

-- A live timer that is found is the one of its request.
pub get-find :
    (p : Timer Text → Bool) (l : List (Timer Text)) (x : Timer Text)
    → AllDiffer l
    → find p l ≡ some x
    → JsMap.get x.callback (pairs l) ≡ some x.id
get-find p [] x d e = cc
get-find p (y ∷ l) x (d, ds) e = elim (Bool-cases (p y)) [
  | inl found ↦
      subst (λ x. JsMap.get x.callback (pairs (y ∷ l)) ≡ some x.id) (find_first p y l x e found)
        (get-head_same y l)
  | inr passed ↦
      let later = find_later p y l x e passed in
      get-tail_same x y l (find_sound (Differ y) p l x later d).0.0 (get-find p l x ds later)
]

pub AllDiffer-append_one :
    (l : List (Timer Text)) (x : Timer Text)
    → AllDiffer l
    → All (λ y. Differ y x) l
    → AllDiffer (l ++ x ∷ [])
AllDiffer-append_one [] x d n = (tt, tt)
AllDiffer-append_one (y ∷ l) x (d, ds) (n, ns) =
    (All-append (Differ y) l (x ∷ []) d (n, tt), AllDiffer-append_one l x ds ns)

pub set-pairs :
    (l : List (Timer Text)) (k : Text) (x : Timer Text)
    → All (λ y. (y.callback === k) ≡ false) l
    → JsMap.set k x.id (pairs l) ≡ pairs l ++ (k, x.id) ∷ []
unfolding JsMap.set
set-pairs [] k x n = refl
set-pairs (y ∷ l) k x (n, ns) = ground (arith, set-pairs l k x ns)

pub keys-delete_head :
    (x : Timer Text) (l : List (Timer Text))
    → All (Differ x) l
    → Perm
        (JsMap.keys (pairs (x ∷ l)))
        (x.callback ∷ JsMap.keys (JsMap.delete x.callback (pairs (x ∷ l))))
unfolding JsMap.delete JsMap.keys
keys-delete_head x l d =
    subst
      (λ b. Perm (x.callback ∷ JsMap.keys (pairs l)) (
        x.callback
        ∷ JsMap.keys (
            if b
            then JsMap.delete x.callback (pairs l)
            else (x.callback, x.id) ∷ JsMap.delete x.callback (pairs l))))
      (sym (===_refl x.callback))
      (subst (λ m. Perm (x.callback ∷ JsMap.keys (pairs l)) (x.callback ∷ JsMap.keys m))
        (sym (delete_other x l d)) (Perm.refl _))

-- The ids before and after one is deleted.
pub keys-delete :
    (l : List (Timer Text)) (k : Text) (t : ℕ)
    → AllDiffer l
    → JsMap.get k (pairs l) ≡ some t
    → Perm (JsMap.keys (pairs l)) (k ∷ JsMap.keys (JsMap.delete k (pairs l)))
unfolding JsMap.get JsMap.delete JsMap.keys
keys-delete [] k t d e = cc
keys-delete (x ∷ l) k t (d, ds) e = elim (Bool-cases (x.callback === k)) [
  | inl same ↦
      subst
        (λ j. Perm (JsMap.keys (pairs (x ∷ l))) (j ∷ JsMap.keys (JsMap.delete j (pairs (x ∷ l)))))
        ((===_iff x.callback k).0 same) (keys-delete_head x l d)
  | inr other ↦
      subst
        (λ b. Perm (x.callback ∷ JsMap.keys (pairs l)) (
          k
          ∷ JsMap.keys (
              if b
              then JsMap.delete k (pairs l)
              else (x.callback, x.id) ∷ JsMap.delete k (pairs l))))
        (sym other)
        (Perm.trans (Perm.cons x.callback (keys-delete l k t ds (get-tail x l k t e other)))
          (Perm.swap k x.callback _))
]
