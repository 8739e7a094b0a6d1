-- ===== src/RegistryClient/Fetch/Again.antt =====
-- A request that is made again (controller/src/lib/registry-client.ts: fetchRegistryTags).
use watchwarden.Base.{
  ℕ, ◌+◌, ◌≤◌, ◌≡◌, refl, ap, ◌∙◌, true, false, Option, none, some, List, [], ◌∷◌, arith, if_split,
  Text, ===_refl, ltb,
}
use watchwarden.JsMap
use watchwarden.JsMap.Members.{are_distinct}
use watchwarden.RegistryClient.Reference.{parse_image_ref, Credential}
use watchwarden.RegistryClient.Tags.{TagsResult}
use watchwarden.RegistryClient.Cache.{
  Cache, Entry, unless_expired, get_cached, set_cache, answer, set_cache-get_cached,
}
use watchwarden.RegistryClient.Fetch.{
  Options, cache_key, Source, source_of, Outcome, fetched, returns, Call, end_call,
  fetch_registry_tags,
}

module _ (decrypt : Text → Option Text) (creds : List Credential)
    (answers : Source → Options → Outcome) where
  -- What is cached is returned.
  fetch-cached :
      (asked answered : ℕ) (image : Text) (o : Options) (cache : Cache) (r : TagsResult)
      → answer asked (cache_key (parse_image_ref image) o) cache ≡ some r
      → let call = fetch_registry_tags decrypt creds answers asked answered image o cache in
        (call.reply ≡ returns r) × (call.asked ≡ none)
  unfolding fetch_registry_tags
  fetch-cached asked answered image o cache r h = rw (fetch_registry_tags, h) (refl, refl)

  -- What is not cached is asked for.
  fetch-asked :
      (asked answered : ℕ) (image : Text) (o : Options) (cache : Cache)
      → let key = cache_key (parse_image_ref image) o in
        answer asked key cache ≡ none
        → fetch_registry_tags decrypt creds answers asked answered image o cache
          ≡ end_call answered key o
              (source_of decrypt creds image)
              (get_cached asked key cache).1
              (answers (source_of decrypt creds image) o)
  unfolding fetch_registry_tags
  fetch-asked asked answered image o cache h = rw (fetch_registry_tags, h) refl

member-delete :
    (t k : Text) (cache : Cache)
    → JsMap.member t (JsMap.keys cache) ≡ false
    → JsMap.member t (JsMap.keys (JsMap.delete k cache)) ≡ false
unfolding JsMap.member JsMap.keys JsMap.delete
member-delete t k [] h = refl
member-delete t k ((j, e) ∷ cache) h = ground (arith, member-delete t k cache)

distinct-delete :
    (k : Text) (cache : Cache)
    → are_distinct (JsMap.keys cache) ≡ true
    → are_distinct (JsMap.keys (JsMap.delete k cache)) ≡ true
unfolding JsMap.keys JsMap.delete
distinct-delete k [] h = refl
distinct-delete k ((j, e) ∷ cache) h =
    ground (arith, distinct-delete k cache, member-delete j k cache)

distinct-get_cached :
    (now : ℕ) (key : Text) (cache : Cache)
    → are_distinct (JsMap.keys cache) ≡ true
    → are_distinct (JsMap.keys (get_cached now key cache).1) ≡ true
unfolding get_cached
distinct-get_cached now key cache d = by_entry (JsMap.get key cache)
  where
    by_entry :
        (o : Option Entry) → are_distinct (JsMap.keys (unless_expired now key cache o).1) ≡ true
    by_entry none = d
    by_entry (some e) =
        if_split (λ (r : Option TagsResult × Cache). are_distinct (JsMap.keys r.1) ≡ true)
          (ltb now e.expires) (λ _. d) (λ _. distinct-delete key cache d)

-- In a cache with distinct keys: where nothing is cached for a request and its source answers with
-- tags, these are returned; and the same request, made within five minutes of that answer, gets the
-- same tags and asks no source: also one for another image, whose tag may differ, of the same
-- repository and registry.
pub fetch-again :
    (decrypt : Text → Option Text) (creds : List Credential) (answers : Source → Options → Outcome)
    (asked answered later answered_again : ℕ) (image other : Text) (o : Options) (cache : Cache)
    (r : TagsResult)
    → are_distinct (JsMap.keys cache) ≡ true
    → parse_image_ref other ≡ parse_image_ref image
    → answer asked (cache_key (parse_image_ref image) o) cache ≡ none
    → answers (source_of decrypt creds image) o ≡ fetched r
    → answered ≤ later
    → ltb later (answered + 300000) ≡ true
    → let first = fetch_registry_tags decrypt creds answers asked answered image o cache in
      let again =
        fetch_registry_tags decrypt creds answers later answered_again other o first.cache in
      (first.reply ≡ returns r) × (again.reply ≡ returns r) × (again.asked ≡ none)
unfolding end_call
fetch-again decrypt creds answers asked answered later answered_again image other o cache r d e h f
      in_order soon =
    let key = cache_key (parse_image_ref image) o in
    let before = (get_cached asked key cache).1 in
    let first = fetch_registry_tags decrypt creds answers asked answered image o cache in
    let call : first ≡ end_call answered key o (source_of decrypt creds image) before (fetched r) =
      fetch-asked decrypt creds answers asked answered image o cache h
      ∙ ap (end_call answered key o (source_of decrypt creds image) before) f in
    let stored : answer later key (set_cache answered key r before) ≡ some r =
      (set_cache-get_cached answered later key key r before (distinct-get_cached asked key cache d)
        in_order).0
      ∙ rw (===_refl key, soon) refl in
    let kept : answer later (cache_key (parse_image_ref other) o) first.cache ≡ some r =
      rw e (ap (λ (c : Call). answer later key c.cache) call ∙ stored) in
    let (same, nothing) =
      fetch-cached decrypt creds answers later answered_again other o first.cache r kept in
    (ap (λ (c : Call). c.reply) call, same, nothing)
