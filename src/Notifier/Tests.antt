-- ===== src/Notifier/Tests.antt =====
-- The theorems on notifications at concrete inputs.
use watchwarden.Base.{◌≡◌, refl, true, none, some, List, [], ◌∷◌, ◌++◌, text, ◌===◌, or_else}
use watchwarden.JsMap
use watchwarden.JsMap.Members.{are_distinct}
use watchwarden.RegistryClient.Reference.{extract_tag, parse_image_ref}
use watchwarden.Notifier.Templates.{with_library, parse_image_components}
use watchwarden.Notifier.Links.{parse_image_components-eq}
use watchwarden.Notifier.Dispatch.{Channel, Round, Notifier, dispatch}
use watchwarden.Notifier.Dispatch.Isolated.{channel_ids, entries, dispatch_lem}

parse_image_components-eq_example :
    let c = parse_image_components (text "ghcr.io/app:v1") in
    let r = parse_image_ref (text "ghcr.io/app:v1") in
    (c.registry ≡ r.registry)
    × (c.repository ≡ with_library r.repository)
    × (c.tag ≡ or_else (extract_tag (text "ghcr.io/app:v1")) (text "latest"))
parse_image_components-eq_example =
    parse_image_components-eq (text "ghcr.io/app:v1") (refl, refl, refl)

abbrev slack : Channel
slack = record {
  id = text "1";
  name = text "slack";
  enabled = true;
  events = some (text "update_available" ∷ []);
}

-- The first channel fails, the second one has a broken list, and the third one gets the event.
abbrev rounds : List Round
rounds =
    record { channel = slack; asked_at = 90000; error = some (text "503"); sent_at = 90100 }
    ∷ record {
      channel = record slack { id = text "2"; events = none };
      asked_at = 90100;
      error = none;
      sent_at = 90100;
    }
    ∷ record {
      channel = record slack { id = text "3" };
      asked_at = 90100;
      error = none;
      sent_at = 90200;
    }
    ∷ []

abbrev notifier : Notifier
notifier = record { last_dispatch = (text "3:update_available", 1000) ∷ []; log = [] }

distinct : are_distinct (channel_ids rounds) ≡ true
unfolding JsMap.member ◌===◌
distinct = refl

dispatch_lem_example :
    (dispatch (text "update_available") rounds notifier).log
    ≡ [] ++ entries (text "update_available") notifier.last_dispatch rounds
dispatch_lem_example = dispatch_lem (text "update_available") rounds notifier distinct
