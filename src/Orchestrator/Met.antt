-- ===== src/Orchestrator/Met.antt =====
-- What it is that the order of an update respects (controller/src/scheduler/orchestrator.ts,
-- topologicalSort).
use mathlib.Core.Path.{subst}
use mathlib.Core.Logic.Or
use mathlib.Core.List.{Perm, Mem, mem-append, append_assoc, append-nil}
use mathlib.Core.List.Perm
use mathlib.Core.Bool.{Bool-set}
use watchwarden.Base.{
  or_right, ℕ, ◌≤◌, ◌<◌, ◌≡◌, refl, sym, Bool, true, not, ◌||◌, Option, none, some, List, [], ◌∷◌,
  ◌++◌, arith, Text, every, All, Bool-cases, inl, inr,
}
use watchwarden.JsMap
use watchwarden.JsMap.Members.{mem→member, member→mem}
use watchwarden.Orchestrator.{Container, Scope, ids, dependencies}

-- A dependency that is to be updated is among the ids that come before.
pub met_by : Scope → List Text → Option Container → Bool
met_by s before none = true
met_by s before (some d) = not (JsMap.member d.id s.to_update) || JsMap.member d.id before

-- All dependencies of a container come before.
unfoldable pub met : Scope → List Text → Container → Bool
unfolding met_by
met s before c = every (λ name. met_by s before (JsMap.get name s.name_map)) (dependencies c)

-- Each container of a list comes after its dependencies.
unfoldable pub IsOrdered : Scope → List Text → List Container → Type 0
unfolding met
IsOrdered s before [] = Unit
IsOrdered s before (c ∷ cs) = (met s before c ≡ true) × IsOrdered s (before ++ c.id ∷ []) cs

pub IsOrdered-append_one :
    (s : Scope) (before : List Text) (cs : List Container) (c : Container)
    → IsOrdered s before cs
    → met s (before ++ ids cs) c ≡ true
    → IsOrdered s before (cs ++ c ∷ [])
unfolding IsOrdered
IsOrdered-append_one s before [] c h m = (subst (λ l. met s l c ≡ true) (append-nil before) m, tt)
IsOrdered-append_one s before (d ∷ cs) c (k, h) m = (
  k,
  IsOrdered-append_one s (before ++ d.id ∷ []) cs c h
      (subst (λ l. met s l c ≡ true) (sym (append_assoc before (d.id ∷ []) (ids cs))) m),
)

-- A dependency by name of a container of a rank: what it resolves to has a lower rank.
abbrev pub Lower : Scope → (Text → ℕ) → ℕ → Text → Type 0
Lower s rank r name =
    (d : Container)
    → JsMap.get name s.name_map ≡ some d
    → JsMap.member d.id s.to_update ≡ true
    → rank d.id < r

-- A container has a higher rank than those it depends on.
abbrev pub Ranked : Scope → (Text → ℕ) → Container → Type 0
Ranked s rank c = All (Lower s rank (rank c.id)) (dependencies c)

-- What a name resolves to is visited.
abbrev pub Done : Scope → List Text → Text → Type 0
Done s visited name =
    (d : Container)
    → JsMap.get name s.name_map ≡ some d
    → JsMap.member d.id s.to_update ≡ true
    → JsMap.member d.id visited ≡ true

met_by-Done :
    (s : Scope) (rank : Text → ℕ) (r : ℕ) (open_ids before : List Text) (name : Text)
    → ((x : Text) → Mem x open_ids → r ≤ rank x)
    → Lower s rank r name
    → (visited : List Text) → Perm visited (before ++ open_ids)
    → Done s visited name
    → (o : Option Container) → JsMap.get name s.name_map ≡ o
    → met_by s before o ≡ true
unfolding met_by
met_by-Done s rank r o before name f l vis p d none e = refl
met_by-Done s rank r o before name f l vis p d (some c) e =
    elim (Bool-cases (JsMap.member c.id s.to_update)) [
      | inr other ↦ ground arith
      | inl wanted ↦
          let m = (Perm.mem_iff p).0 (member→mem c.id vis (d c e wanted)) in
          Or.elim (Bool-set _ _) (mem-append.0 m) (λ b. or_right _ _ (mem→member c.id before b))
            (λ k. absurd (omega (arith, f c.id k, l c e wanted)))
    ]

-- A dependency that is visited, but is none of those whose visit is under way, is in the result.
pub met-Done :
    (s : Scope) (rank : Text → ℕ) (r : ℕ) (open_ids before : List Text) (names : List Text)
    → ((x : Text) → Mem x open_ids → r ≤ rank x)
    → All (Lower s rank r) names
    → (visited : List Text) → Perm visited (before ++ open_ids)
    → All (Done s visited) names
    → every (λ name. met_by s before (JsMap.get name s.name_map)) names ≡ true
met-Done s rank r o before [] f l vis p d = refl
met-Done s rank r o before (name ∷ names) f (l, ls) vis p (d, ds) = ground (
  arith,
  met_by-Done s rank r o before name f l vis p d (JsMap.get name s.name_map) refl,
  met-Done s rank r o before names f ls vis p ds,
)
