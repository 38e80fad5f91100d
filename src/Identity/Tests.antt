-- ===== src/Identity/Tests.antt =====
-- A session whose client and application try to change its user.
use oxiterm.Common.{◌≡◌, refl, true, none, some, List, [], ◌∷◌}
use oxiterm.Common.Texts.{Text, codes, text_eq, split_once}
use oxiterm.State.{new}
use oxiterm.State.Patch.{Json, object, field, string, no_fields}
use oxiterm.Identity.{ClientSession, from_trusted_header, trusted_header, as_guest}
use oxiterm.Identity.Kept.{SessionEvent, action, patch, attach}

header_accepted :
    from_trusted_header (codes "ann") (codes "10.0.0.1") (codes "10.0.0.1:8080")
    ≡ some (record { username = codes "ann"; auth_method = trusted_header })
unfolding from_trusted_header text_eq split_once
header_accepted = refl

header_refused : from_trusted_header (codes "eve") (codes "10.0.0.2") (codes "10.0.0.1") ≡ none
unfolding from_trusted_header text_eq split_once
header_refused = refl

abbrev session : ClientSession
session = record { state = new; identity = none; is_web_client = true }

abbrev attempts : List SessionEvent
attempts =
    action (codes "set:_username=eve")
    ∷ patch (object (field (codes "_username") (string (codes "eve")) no_fields))
    ∷ attach as_guest
    ∷ []

abbrev shown : Json → Text
shown v = codes "null"
