-- ===== src/RegistryClient/Fetch.antt =====
-- The tags of an image (controller/src/lib/registry-client.ts: fetchRegistryTags, fetchDockerHubTags). What
-- the network answers to a request is an argument, and so are the times at which a request is made
-- and answered; no other request is taken to run in between. A page is given by the number of pages
-- before it.
pub mod Again
use watchwarden.Base.{
  ℕ, zero, suc, ◌+◌, ◌*◌, Bool, true, false, ◌||◌, Option, none, some, List, [], ◌∷◌, ◌++◌, map,
  Text, text, decimal, ◌===◌, ltb, if◌then◌else◌, or_else,
}
use watchwarden.RegistryClient.Reference.{
  ImageRef, parse_image_ref, extract_tag, can_use_docker_hub, Credential, get_credentials,
}
use watchwarden.RegistryClient.Tags.{RegistryTag, TagsResult}
use watchwarden.RegistryClient.Cache.{Cache, get_cached, set_cache}

pub record Options : Type 0 where
  pub pages_before : ℕ
  pub limit : ℕ
  pub search : Option Text

unfoldable pub cache_key : ImageRef → Options → Text
cache_key ref o =
    ref.registry
    ++ text "/"
    ++ ref.repository
    ++ text ":p"
    ++ decimal (suc o.pages_before)
    ++ text ":l"
    ++ decimal o.limit
    ++ text ":s"
    ++ or_else o.search []

-- Which registry is asked: Docker Hub for a repository; or another one, with its credentials, and with
-- the tag that the second list of names begins behind.
pub data Source : Type 0 where
  docker_hub : (repository : Text) → Source
  registry_v2 :
      (registry repository : Text) (creds : Option (Text × Text)) (image_tag : Option Text) → Source

unfoldable pub source_of : (decrypt : Text → Option Text) → List Credential → Text → Source
unfolding parse_image_ref can_use_docker_hub get_credentials extract_tag
source_of decrypt creds image =
    let ref = parse_image_ref image in
    if ref.registry === text "docker.io" || can_use_docker_hub ref.registry
    then docker_hub ref.repository
    else registry_v2 ref.registry ref.repository (get_credentials decrypt ref.registry creds)
        (extract_tag image)

-- How a request of a source ends: with its tags, by the abort after 15 s, or with another error.
pub data Outcome : Type 0 where
  fetched : TagsResult → Outcome
  aborted : Outcome
  failed : (error : Text) → Outcome

-- Docker Hub's answer that is "ok", or none.
pub record HubPage : Type 0 where
  pub count : ℕ
  pub results : List RegistryTag

unfoldable pub fetch_docker_hub_tags : Option HubPage → Options → TagsResult
fetch_docker_hub_tags none o = record {
  tags = [];
  page = suc o.pages_before;
  has_more = false;
  total = none;
}
fetch_docker_hub_tags (some d) o = record {
  tags = d.results;
  page = suc o.pages_before;
  has_more = ltb (suc o.pages_before * o.limit) d.count;
  total = some d.count;
}

-- What the caller gets: the tags, or the error that is thrown.
pub data Reply : Type 0 where
  returns : TagsResult → Reply
  throws : (error : Text) → Reply

-- A call: what the caller gets, the cache, and the source that is asked, if one is.
pub record Call : Type 0 where
  pub reply : Reply
  pub cache : Cache
  pub asked : Option Source

unfoldable pub end_call : ℕ → Text → Options → Source → Cache → Outcome → Call
unfolding set_cache
end_call answered_at key o source cache (fetched r) = record {
  reply = returns r;
  cache = set_cache answered_at key r cache;
  asked = some source;
}
end_call answered_at key o source cache aborted = record {
  reply = returns (record { tags = []; page = suc o.pages_before; has_more = false; total = none });
  cache = cache;
  asked = some source;
}
end_call answered_at key o source cache (failed error) = record {
  reply = throws error;
  cache = cache;
  asked = some source;
}

unfoldable pub fetch_registry_tags :
    (decrypt : Text → Option Text)
    → List Credential
    → (answers : Source → Options → Outcome) → (asked_at answered_at : ℕ) → (image : Text) → Options
    → Cache
    → Call
unfolding cache_key source_of get_cached end_call
fetch_registry_tags decrypt creds answers asked_at answered_at image o cache =
    let key = cache_key (parse_image_ref image) o in
    let source = source_of decrypt creds image in
    let looked_up = get_cached asked_at key cache in
    elim looked_up.0 [
      | some r ↦ record { reply = returns r; cache = looked_up.1; asked = none }
      | none ↦ end_call answered_at key o source looked_up.1 (answers source o)
    ]
