-- ===== src/RegistryClient/Cache.antt =====
-- The cache of tag lists (controller/src/lib/registry-client.ts: getCached, setCache). The time of a call,
-- in milliseconds, is its first argument.
use watchwarden.Base.{
  ℕ, ◌+◌, ◌*◌, ◌≤◌, ◌≡◌, refl, sym, ap, ◌∙◌, Bool, true, false, ◌&&◌, ◌||◌, Option, none, some, [],
  ◌∷◌, arith, Text, ◌===◌, ===_iff, ltb, if◌then◌else◌, length, if_split,
}
use watchwarden.JsMap
use watchwarden.JsMap.{get-set, get-delete}
use watchwarden.JsMap.Members.{are_distinct}
use watchwarden.RegistryClient.Tags.{TagsResult}

pub record Entry : Type 0 where
  pub contents : TagsResult
  pub expires : ℕ

abbrev pub Cache : Type 0
Cache = JsMap.Map Entry

abbrev pub cache_ttl_ms : ℕ
cache_ttl_ms = 5 * 60 * 1000

abbrev pub unless_expired : ℕ → Text → Cache → Option Entry → Option TagsResult × Cache
unless_expired now key cache none = (none, cache)
unless_expired now key cache (some e) =
    if ltb now e.expires then (some e.contents, cache) else (none, JsMap.delete key cache)

unfoldable pub get_cached : ℕ → Text → Cache → Option TagsResult × Cache
get_cached now key cache = unless_expired now key cache (JsMap.get key cache)

-- The loop over the entries.
unfoldable pub prune_entries : ℕ → Cache → Cache → Cache
prune_entries now [] cache = cache
prune_entries now ((k, e) ∷ entries) cache =
    prune_entries now entries (if ltb e.expires now then JsMap.delete k cache else cache)

unfoldable pub set_cache : ℕ → Text → TagsResult → Cache → Cache
unfolding prune_entries
set_cache now key contents cache =
    let stored =
      JsMap.set key (record { contents = contents; expires = now + cache_ttl_ms }) cache in
    if ltb 200 (length stored) then prune_entries now stored stored else stored

-- What a lookup answers.
abbrev pub answer : ℕ → Text → Cache → Option TagsResult
answer now key cache = (get_cached now key cache).0

fresh : ℕ → Option Entry → Option TagsResult
fresh now none = none
fresh now (some e) = if ltb now e.expires then some e.contents else none

is_old : ℕ → Option Entry → Bool
is_old now none = false
is_old now (some e) = ltb e.expires now

has_old : ℕ → Text → Cache → Bool
has_old now j [] = false
has_old now j ((k, e) ∷ entries) = (k === j && ltb e.expires now) || has_old now j entries

answer-fresh :
    (now : ℕ) (key : Text) (cache : Cache) → answer now key cache ≡ fresh now (JsMap.get key cache)
unfolding get_cached fresh
answer-fresh now key cache = by_entry (JsMap.get key cache)
  where
    by_entry : (o : Option Entry) → (unless_expired now key cache o).0 ≡ fresh now o
    by_entry none = refl
    by_entry (some e) = ground arith

get-prune_entries :
    (now : ℕ) (j : Text) (entries cache : Cache)
    → JsMap.get j (prune_entries now entries cache)
      ≡ (if has_old now j entries then none else JsMap.get j cache)
unfolding prune_entries has_old
get-prune_entries now j [] cache = refl
get-prune_entries now j ((k, e) ∷ entries) cache = ground (
  arith,
  get-prune_entries now j entries (if ltb e.expires now then JsMap.delete k cache else cache),
  get-delete k j cache,
)

has_old-absent :
    (now : ℕ) (j : Text) (cache : Cache)
    → JsMap.member j (JsMap.keys cache) ≡ false
    → has_old now j cache ≡ false
unfolding has_old JsMap.member JsMap.keys
has_old-absent now j [] h = refl
has_old-absent now j ((k, e) ∷ cache) h = ground (arith, has_old-absent now j cache)

has_old-get :
    (now : ℕ) (j : Text) (cache : Cache)
    → are_distinct (JsMap.keys cache) ≡ true
    → has_old now j cache ≡ is_old now (JsMap.get j cache)
unfolding has_old is_old JsMap.get JsMap.keys
has_old-get now j [] h = refl
has_old-get now j ((k, e) ∷ cache) h =
    ground (arith, has_old-get now j cache, has_old-absent now j cache, ===_iff k j)

member-set :
    (t k : Text) (e : Entry) (cache : Cache)
    → JsMap.member t (JsMap.keys (JsMap.set k e cache))
      ≡ (k === t || JsMap.member t (JsMap.keys cache))
unfolding JsMap.set JsMap.keys JsMap.member
member-set t k e [] = refl
member-set t k e ((j, f) ∷ cache) = ground (arith, member-set t k e cache, ===_iff j k)

distinct-set :
    (k : Text) (e : Entry) (cache : Cache)
    → are_distinct (JsMap.keys cache) ≡ true
    → are_distinct (JsMap.keys (JsMap.set k e cache)) ≡ true
unfolding JsMap.set JsMap.keys JsMap.member
distinct-set k e [] h = refl
distinct-set k e ((j, f) ∷ cache) h =
    ground (arith, distinct-set k e cache, member-set j k e cache, ===_iff j k, ===_iff k j)

fresh-old :
    (before now : ℕ) (o : Option Entry)
    → before ≤ now
    → fresh now (if is_old before o then none else o) ≡ fresh now o
unfolding fresh is_old
fresh-old before now none h = refl
fresh-old before now (some e) h = ground arith

-- Pruning the entries of a map changes no later answer.
answer-prune :
    (before now : ℕ) (j : Text) (cache : Cache)
    → are_distinct (JsMap.keys cache) ≡ true
    → before ≤ now
    → answer now j (prune_entries before cache cache) ≡ fresh now (JsMap.get j cache)
answer-prune before now j cache d h =
    answer-fresh now j (prune_entries before cache cache)
    ∙ ap (fresh now) (
        get-prune_entries before j cache cache
        ∙ ap (λ b. if b then none else JsMap.get j cache) (has_old-get before j cache d))
    ∙ fresh-old before now (JsMap.get j cache) h

answer-set_cache :
    (before now : ℕ) (key j : Text) (contents : TagsResult) (cache : Cache)
    → are_distinct (JsMap.keys cache) ≡ true
    → before ≤ now
    → answer now j (set_cache before key contents cache)
      ≡ fresh now (
          JsMap.get j
            (JsMap.set key (record { contents = contents; expires = before + cache_ttl_ms }) cache))
unfolding set_cache
answer-set_cache before now key j contents cache d h =
    let e : Entry = record { contents = contents; expires = before + cache_ttl_ms } in
    let stored = JsMap.set key e cache in
    if_split (λ c. answer now j c ≡ fresh now (JsMap.get j stored)) (ltb 200 (length stored))
      (λ _. answer-prune before now j stored (distinct-set key e cache d) h)
      (λ _. answer-fresh now j stored)

-- An entry that has expired answers nothing, so that its removal is not seen.
fresh-delete :
    (before now : ℕ) (e : Entry) (same : Bool) (o : Option Entry)
    → before ≤ now
    → ltb before e.expires ≡ false
    → (same ≡ true → o ≡ some e)
    → fresh now (if same then none else o) ≡ fresh now o
unfolding fresh
fresh-delete before now e true o h old is = expired ∙ sym (ap (fresh now) (is refl))
  where
    expired : none ≡ fresh now (some e)
    expired = ground arith
fresh-delete before now e false o h old is = refl

answer-get_cached :
    (before now : ℕ) (key j : Text) (cache : Cache)
    → before ≤ now
    → answer now j (get_cached before key cache).1 ≡ answer now j cache
unfolding get_cached
answer-get_cached before now key j cache h = by_entry (JsMap.get key cache) refl
  where
    by_entry :
        (o : Option Entry)
        → JsMap.get key cache ≡ o
        → answer now j (unless_expired before key cache o).1 ≡ answer now j cache
    by_entry none is = refl
    by_entry (some e) is =
        if_split (λ (r : Option TagsResult × Cache). answer now j r.1 ≡ answer now j cache)
          (ltb before e.expires) (λ _. refl)
          (λ old.
            answer-fresh now j (JsMap.delete key cache)
            ∙ ap (fresh now) (get-delete key j cache)
            ∙ fresh-delete before now e (key === j) (JsMap.get j cache) h old
                (λ same. ap (λ k. JsMap.get k cache) (sym ((===_iff key j).0 same)) ∙ is)
            ∙ sym (answer-fresh now j cache))

fresh-if :
    (now : ℕ) (b : Bool) (e : Entry) (o : Option Entry) (r : Option TagsResult)
    → r ≡ fresh now o
    → fresh now (if b then some e else o)
      ≡ (if b then if ltb now e.expires then some e.contents else none else r)
unfolding fresh
fresh-if now true e o r h = refl
fresh-if now false e o r h = sym h

-- In a map, whose keys are distinct: once a list is stored under a key, a later lookup of that key answers
-- it for the next five minutes and nothing after them, and a lookup of any other key answers as it
-- would have; the removal of old entries, by a store or by a lookup, changes no later answer.
pub set_cache-get_cached :
    (before now : ℕ) (key j : Text) (contents : TagsResult) (cache : Cache)
    → are_distinct (JsMap.keys cache) ≡ true
    → before ≤ now
    → (answer now j (set_cache before key contents cache) ≡ (
        if key === j
        then if ltb now (before + 300000) then some contents else none
        else answer now j cache))
      × (answer now j (get_cached before key cache).1 ≡ answer now j cache)
unfolding fresh
set_cache-get_cached before now key j contents cache d h =
    let e : Entry = record { contents = contents; expires = before + cache_ttl_ms } in
    (
      answer-set_cache before now key j contents cache d h
          ∙ ap (fresh now) (get-set key j e cache)
          ∙ fresh-if now (key === j) e (JsMap.get j cache) (answer now j cache)
              (answer-fresh now j cache),
      answer-get_cached before now key j cache h,
    )
