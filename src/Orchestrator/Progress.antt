-- ===== src/Orchestrator/Progress.antt =====
-- What a visit changes (controller/src/scheduler/orchestrator.ts, topologicalSort).
use mathlib.Core.Path.{subst}
use mathlib.Core.List.{Perm, Nodup, Nodup-cons, perm_append_singleton}
use mathlib.Core.List.Perm
use watchwarden.Base.{
  true_is_not_false, ℕ, ◌≤◌, ◌<◌, ◌≡◌, true, false, not, List, [], ◌∷◌, ◌++◌, arith, Text, ◌===◌,
  ===_iff, ===_refl, length, keep, Bool-cases, inl, inr, length-keep-le,
}
use watchwarden.JsMap
use watchwarden.JsMap.Members.{mem→member}
use watchwarden.Orchestrator.{Container, Visit, Scope, ids}

-- The ids of a list that are not visited yet.
pub left : List Text → List Text → ℕ
left u visited = length (keep (λ x. not (JsMap.member x visited)) u)

pub left-append_le :
    (u visited : List Text) (x : Text) → left u (visited ++ x ∷ []) ≤ left u visited
unfolding left
left-append_le [] visited x = omega arith
left-append_le (y ∷ u) visited x =
    ground (arith, left-append_le u visited x, JsMap.member-append_one x y visited)

pub left-append_lt :
    (u visited : List Text) (x : Text)
    → JsMap.member x u ≡ true
    → JsMap.member x visited ≡ false
    → left u (visited ++ x ∷ []) < left u visited
unfolding left JsMap.member
left-append_lt [] visited x m n = cc
left-append_lt (y ∷ u) visited x m n = ground (
  arith,
  left-append_lt u visited x,
  left-append_le u visited x,
  JsMap.member-append_one x y visited,
  ===_iff y x,
  ===_iff x y,
)

pub left-le : (u visited : List Text) → left u visited ≤ length u
unfolding left
left-le u visited = length-keep-le (λ x. not (JsMap.member x visited)) u

pub Nodup-append_one :
    (x : Text) (xs : List Text) → JsMap.member x xs ≡ false → Nodup xs → Nodup (xs ++ x ∷ [])
Nodup-append_one x xs h n =
    Perm.nodup (Perm.symm (perm_append_singleton x xs))
      (Nodup-cons.1 (λ m. true_is_not_false (mem→member x xs m) h, n))

pub member_before :
    (y x : Text) (xs : List Text) → JsMap.member y xs ≡ true → JsMap.member y (xs ++ x ∷ []) ≡ true
member_before y x xs h = ground (arith, JsMap.member-append_one x y xs)

pub member_last : (x : Text) (xs : List Text) → JsMap.member x (xs ++ x ∷ []) ≡ true
member_last x xs = ground (arith, JsMap.member-append_one x x xs, ===_refl x)

pub inside_new :
    (s : Scope) (c : Container) (v : Visit)
    → JsMap.member c.id s.to_update ≡ true
    → ((x : Text) → JsMap.member x v.visited ≡ true → JsMap.member x s.to_update ≡ true)
    → (y : Text) → JsMap.member y (v.visited ++ c.id ∷ []) ≡ true
    → JsMap.member y s.to_update ≡ true
inside_new s c v m f y h = elim (Bool-cases (c.id === y)) [
  | inl same ↦ subst (λ z. JsMap.member z s.to_update ≡ true) ((===_iff c.id y).0 same) m
  | inr other ↦ f y (ground (arith, JsMap.member-append_one c.id y v.visited))
]

-- What a visit has changed: nothing is unvisited, what is visited is to be updated, and the result
-- has grown by what was visited, whatever visits are under way around it.
pub record Extends (s : Scope) (v w : Visit) : Type 0 where
  pub fewer : left s.to_update w.visited ≤ left s.to_update v.visited
  pub grows : (x : Text) → JsMap.member x v.visited ≡ true → JsMap.member x w.visited ≡ true
  pub inside :
      ((x : Text) → JsMap.member x v.visited ≡ true → JsMap.member x s.to_update ≡ true)
      → (x : Text) → JsMap.member x w.visited ≡ true
      → JsMap.member x s.to_update ≡ true
  pub perm :
      (open_ids : List Text)
      → Perm v.visited (ids v.result ++ open_ids)
      → Perm w.visited (ids w.result ++ open_ids)
  pub nodup : Nodup v.visited → Nodup w.visited

pub Extends-refl : (s : Scope) (v : Visit) → Extends s v v
Extends-refl s v = record {
  fewer = omega arith;
  grows = λ x h. h;
  inside = λ f. f;
  perm = λ o p. p;
  nodup = λ n. n;
}

pub Extends-trans : {s : Scope} {u v w : Visit} → Extends s u v → Extends s v w → Extends s u w
Extends-trans a b = record {
  fewer = omega (arith, a.fewer, b.fewer);
  grows = λ x h. b.grows x (a.grows x h);
  inside = λ f. b.inside (a.inside f);
  perm = λ o p. b.perm o (a.perm o p);
  nodup = λ n. b.nodup (a.nodup n);
}
