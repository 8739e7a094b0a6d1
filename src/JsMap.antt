-- ===== src/JsMap.antt =====
-- The JavaScript `Map` and `Set` with string keys. Entries stand in insertion order; setting a key
-- that is present keeps its place.
pub mod Members
use watchwarden.Base.{
  or_false, ◌≡◌, refl, sym, Bool, true, false, ◌||◌, Option, none, some, List, [], ◌∷◌, ◌++◌, arith,
  Text, ◌===◌, ===_iff, if◌then◌else◌, is_some,
}

abbrev pub Map {ℓ} : Type ℓ → Type ℓ
Map V = List (Text × V)

module _ {ℓ} {V : Type ℓ} where
  unfoldable pub get : Text → Map V → Option V
  get k [] = none
  get k ((j, v) ∷ m) = if j === k then some v else get k m

  unfoldable pub set : Text → V → Map V → Map V
  set k v [] = (k, v) ∷ []
  set k v ((j, w) ∷ m) = if j === k then (k, v) ∷ m else (j, w) ∷ set k v m

  unfoldable pub delete : Text → Map V → Map V
  delete k [] = []
  delete k ((j, w) ∷ m) = if j === k then delete k m else (j, w) ∷ delete k m

  unfoldable pub keys : Map V → List Text
  keys [] = []
  keys ((j, w) ∷ m) = j ∷ keys m

  unfoldable pub values : Map V → List V
  values [] = []
  values ((j, w) ∷ m) = w ∷ values m

  pub get-set :
      (k j : Text) (v : V) (m : Map V) → get j (set k v m) ≡ (if k === j then some v else get j m)
  unfolding get set
  get-set k j v [] = refl
  get-set k j v ((i, w) ∷ m) =
      ground (arith, ===_iff k j, ===_iff i k, ===_iff i j, get-set k j v m)

  pub get-delete :
      (k j : Text) (m : Map V) → get j (delete k m) ≡ (if k === j then none else get j m)
  unfolding get delete
  get-delete k j [] = ground arith
  get-delete k j ((i, w) ∷ m) =
      ground (arith, ===_iff k j, ===_iff i k, ===_iff i j, get-delete k j m)

-- `set.has(x)`.
unfoldable pub member : Text → List Text → Bool
member x [] = false
member x (y ∷ ys) = y === x || member x ys

-- `set.add(x)`.
unfoldable pub add : Text → List Text → List Text
unfolding member
add x s = if member x s then s else s ++ x ∷ []

-- `new Set(xs)`, with some members before.
unfoldable pub unique_from : List Text → List Text → List Text
unfolding add
unique_from seen [] = seen
unique_from seen (x ∷ xs) = unique_from (add x seen) xs

-- `set.delete(x)`.
unfoldable pub remove : Text → List Text → List Text
remove x [] = []
remove x (y ∷ ys) = if y === x then remove x ys else y ∷ remove x ys

pub member-append_one :
    (x y : Text) (s : List Text) → member y (s ++ x ∷ []) ≡ (x === y || member y s)
unfolding member
member-append_one x y [] = refl
member-append_one x y (z ∷ s) = ground (arith, member-append_one x y s)

pub member-add : (x y : Text) (s : List Text) → member y (add x s) ≡ (x === y || member y s)
unfolding add
member-add x y s = ground (arith, member-append_one x y s, ===_iff x y)

pub member-remove :
    (x y : Text) (s : List Text) → member y (remove x s) ≡ (if x === y then false else member y s)
unfolding member remove
member-remove x y [] = ground arith
member-remove x y (z ∷ s) =
    ground (arith, ===_iff x y, ===_iff z x, ===_iff z y, member-remove x y s)

pub member-unique_from :
    (t : Text) (seen xs : List Text)
    → member t (unique_from seen xs) ≡ (member t seen || member t xs)
unfolding unique_from member
member-unique_from t seen [] = sym (or_false (member t seen))
member-unique_from t seen (x ∷ xs) =
    ground (arith, member-unique_from t (add x seen) xs, member-add x t seen)
