-- ===== src/Orchestrator/Groups.antt =====
-- Containers grouped by priority (controller/src/scheduler/orchestrator.ts, resolveUpdateBatches).
use mathlib.Core.Path.{subst}
use mathlib.Core.List.{Perm, perm_middle, perm_append_comm, append_assoc, append-nil}
use mathlib.Core.List.Perm
use watchwarden.Base.{
  ℕ, ◌<◌, ◌≡◌, refl, sym, ap, false, List, [], ◌∷◌, ◌++◌, arith, if◌then◌else◌, leb, ◌==◌, ==_iff,
  All, All-mono, Bool-cases, inl, inr, if_cases,
}
use watchwarden.Orchestrator.{
  Container, add_to_group, group_from, insert_group, sort_groups, groups_of,
}

abbrev pub Group : Type 0
Group = ℕ × List Container

abbrev pub members : List Group → List Container
members [] = []
members ((p, cs) ∷ gs) = cs ++ members gs

-- Every group holds containers of its priority.
abbrev pub OfPriority : Group → Type 0
OfPriority g = All (λ c. c.update_priority ≡ g.0) g.1

-- Each key is below all that follow.
abbrev pub IsAscending {ℓ} : {A : Type ℓ} → (A → ℕ) → List A → Type ℓ
IsAscending key [] = Unit
IsAscending key (x ∷ xs) = All (λ y. key x < key y) xs × IsAscending key xs

-- No two groups have the same priority.
abbrev IsDistinct : List Group → Type 0
IsDistinct [] = Unit
IsDistinct (g ∷ gs) = All (λ h. (g.0 == h.0) ≡ false) gs × IsDistinct gs

All-append_one {ℓ κ} :
    {A : Type ℓ} (P : A → Type κ) (xs : List A) (x : A) → All P xs → P x → All P (xs ++ x ∷ [])
All-append_one P [] x h p = (p, tt)
All-append_one P (y ∷ xs) x (q, h) p = (q, All-append_one P xs x h p)

add_to_group-OfPriority :
    (c : Container) (gs : List Group) → All OfPriority gs → All OfPriority (add_to_group c gs)
unfolding add_to_group
add_to_group-OfPriority c [] h = ((refl, tt), tt)
add_to_group-OfPriority c ((p, cs) ∷ gs) (k, h) = elim (Bool-cases (p == c.update_priority)) [
  | inl same ↦
      subst (All OfPriority)
        (sym (ap (λ b. if b then (p, cs ++ c ∷ []) ∷ gs else (p, cs) ∷ add_to_group c gs) same))
        (All-append_one _ cs c k (sym ((==_iff p c.update_priority).0 same)), h)
  | inr other ↦
      subst (All OfPriority)
        (sym (ap (λ b. if b then (p, cs ++ c ∷ []) ∷ gs else (p, cs) ∷ add_to_group c gs) other))
        (k, add_to_group-OfPriority c gs h)
]

add_to_group-Perm :
    (c : Container) (gs : List Group) → Perm (members (add_to_group c gs)) (c ∷ members gs)
unfolding add_to_group
add_to_group-Perm c [] = Perm.refl _
add_to_group-Perm c ((p, cs) ∷ gs) =
    if_cases (λ hs. Perm (members hs) (c ∷ cs ++ members gs)) (p == c.update_priority)
      (subst (λ l. Perm l (c ∷ cs ++ members gs)) (sym (append_assoc cs (c ∷ []) (members gs)))
        (perm_middle cs (members gs)))
      (Perm.trans (Perm.append_left cs (add_to_group-Perm c gs)) (perm_middle cs (members gs)))

group_from-OfPriority :
    (gs : List Group) (cs : List Container) → All OfPriority gs → All OfPriority (group_from gs cs)
unfolding group_from
group_from-OfPriority gs [] h = h
group_from-OfPriority gs (c ∷ cs) h =
    group_from-OfPriority (add_to_group c gs) cs (add_to_group-OfPriority c gs h)

group_from-Perm :
    (gs : List Group) (cs : List Container) → Perm (members (group_from gs cs)) (cs ++ members gs)
unfolding group_from
group_from-Perm gs [] = Perm.refl _
group_from-Perm gs (c ∷ cs) =
    Perm.trans (group_from-Perm (add_to_group c gs) cs)
      (Perm.trans (Perm.append_left cs (add_to_group-Perm c gs)) (perm_middle cs (members gs)))

-- A property of priorities that the new container and all groups have.
add_to_group-All {κ} :
    (P : ℕ → Type κ) (c : Container) (gs : List Group)
    → P c.update_priority
    → All (λ g. P g.0) gs
    → All (λ g. P g.0) (add_to_group c gs)
unfolding add_to_group
add_to_group-All P c [] p h = (p, tt)
add_to_group-All P c ((q, cs) ∷ gs) p (k, h) =
    if_cases (All (λ g. P g.0)) (q == c.update_priority) (k, h) (k, add_to_group-All P c gs p h)

add_to_group-IsDistinct :
    (c : Container) (gs : List Group) → IsDistinct gs → IsDistinct (add_to_group c gs)
unfolding add_to_group
add_to_group-IsDistinct c [] d = (tt, tt)
add_to_group-IsDistinct c ((p, cs) ∷ gs) (k, d) =
    ground (arith, add_to_group-IsDistinct c gs d, add_to_group-All (λ q. (p == q) ≡ false) c gs)

group_from-IsDistinct :
    (gs : List Group) (cs : List Container) → IsDistinct gs → IsDistinct (group_from gs cs)
unfolding group_from
group_from-IsDistinct gs [] d = d
group_from-IsDistinct gs (c ∷ cs) d =
    group_from-IsDistinct (add_to_group c gs) cs (add_to_group-IsDistinct c gs d)

insert_group-All {κ} :
    (P : Group → Type κ) (g : Group) (gs : List Group) → P g → All P gs → All P (insert_group g gs)
unfolding insert_group
insert_group-All P g [] p h = (p, tt)
insert_group-All P g (k ∷ gs) p (q, h) =
    if_cases (All P) (leb g.0 k.0) (p, (q, h)) (q, insert_group-All P g gs p h)

sort_groups-All {κ} : (P : Group → Type κ) (gs : List Group) → All P gs → All P (sort_groups gs)
unfolding sort_groups
sort_groups-All P [] h = tt
sort_groups-All P (g ∷ gs) (p, h) = insert_group-All P g (sort_groups gs) p (sort_groups-All P gs h)

swap_blocks {ℓ} : {A : Type ℓ} (xs ys zs : List A) → Perm (xs ++ (ys ++ zs)) (ys ++ (xs ++ zs))
swap_blocks xs ys zs =
    subst (λ l. Perm l (ys ++ (xs ++ zs))) (append_assoc xs ys zs)
      (subst (λ l. Perm (xs ++ ys ++ zs) l) (append_assoc ys xs zs)
        (Perm.append_right zs (perm_append_comm xs ys)))

members-insert_group :
    (g : Group) (gs : List Group) → Perm (members (insert_group g gs)) (g.1 ++ members gs)
unfolding insert_group
members-insert_group g [] = Perm.refl _
members-insert_group g (h ∷ hs) =
    if_cases (λ l. Perm (members l) (g.1 ++ (h.1 ++ members hs))) (leb g.0 h.0) (Perm.refl _)
      (Perm.trans (Perm.append_left h.1 (members-insert_group g hs))
        (swap_blocks h.1 g.1 (members hs)))

members-sort_groups : (gs : List Group) → Perm (members (sort_groups gs)) (members gs)
unfolding sort_groups
members-sort_groups [] = Perm.refl _
members-sort_groups (g ∷ gs) =
    Perm.trans (members-insert_group g (sort_groups gs))
      (Perm.append_left g.1 (members-sort_groups gs))

insert_group-IsAscending :
    (g : Group) (gs : List Group)
    → All (λ h. (g.0 == h.0) ≡ false) gs
    → IsAscending (λ h. h.0) gs
    → IsAscending (λ h. h.0) (insert_group g gs)
unfolding insert_group
insert_group-IsAscending g [] d a = (tt, tt)
insert_group-IsAscending g (h ∷ hs) (d, ds) (l, a) = elim (Bool-cases (leb g.0 h.0)) [
  | inl le ↦
      subst (λ b. IsAscending (λ h. h.0) (if b then g ∷ h ∷ hs else h ∷ insert_group g hs)) (sym le)
        ((ground arith, All-mono _ _ hs (λ k m. ground arith) l), (l, a))
  | inr gt ↦
      subst (λ b. IsAscending (λ h. h.0) (if b then g ∷ h ∷ hs else h ∷ insert_group g hs)) (sym gt)
        (
          insert_group-All (λ k. h.0 < k.0) g hs (ground arith) l,
          insert_group-IsAscending g hs ds a,
        )
]

sort_groups-IsAscending :
    (gs : List Group) → IsDistinct gs → IsAscending (λ h. h.0) (sort_groups gs)
unfolding sort_groups
sort_groups-IsAscending [] d = tt
sort_groups-IsAscending (g ∷ gs) (k, d) =
    insert_group-IsAscending g (sort_groups gs) (sort_groups-All _ gs k)
      (sort_groups-IsAscending gs d)

-- The groups have ascending priorities, no two the same; each holds containers of its priority;
-- together they hold the containers of the order, each as often as it has it.
pub groups_of_lem :
    (sorted : List Container)
    → IsAscending (λ g. g.0) (groups_of sorted)
      × All OfPriority (groups_of sorted)
      × Perm (members (groups_of sorted)) sorted
unfolding groups_of
groups_of_lem sorted =
    let gs = group_from [] sorted in
    (
      sort_groups-IsAscending gs (group_from-IsDistinct [] sorted tt),
      sort_groups-All OfPriority gs (group_from-OfPriority [] sorted tt),
      Perm.trans (members-sort_groups gs)
          (subst (λ l. Perm (members gs) l) (append-nil sorted) (group_from-Perm [] sorted)),
    )
