-- ===== src/UrlValidator/Tests.antt =====
-- Addresses of metadata services, one of them in the form of an IPv6 address.
use oxiterm.Common.{◌≡◌, refl, Option, some, [], ◌∷◌}
use oxiterm.Common.Outcome.{ok, err}
use oxiterm.Common.Texts.{Text, codes, text_eq, contains_text}
use oxiterm.UrlValidator.{
  Host, ipv4, ipv6, domain, Url, validate_app_server_url, forbidden_address, forbidden_domain,
}

abbrev parsed_as : Host → Text → Option Url
parsed_as host s = some (record { scheme = codes "http"; host = some host })

abbrev as_it_is : Text → Text
as_it_is s = s

metadata_address :
    validate_app_server_url (parsed_as (ipv4 169 254 169 254)) as_it_is [] ≡ err forbidden_address
unfolding validate_app_server_url text_eq
metadata_address = refl

metadata_name :
    validate_app_server_url (parsed_as (domain (codes "metadata.internal"))) as_it_is []
    ≡ err forbidden_domain
unfolding validate_app_server_url text_eq contains_text
metadata_name = refl

-- ::ffff:169.254.169.254
mapped_address :
    validate_app_server_url
      (parsed_as (ipv6 0 (0 ∷ 0 ∷ 0 ∷ 0 ∷ 0xffff ∷ 0xa9fe ∷ 0xa9fe ∷ [])))
      as_it_is
      []
    ≡ ok tt
unfolding validate_app_server_url text_eq
mapped_address = refl
