-- ===== src/UrlValidator.antt =====
-- oxiterm-server/src/url_validator.rs: which addresses of application servers are refused. What the
-- crate url makes of a text, and the lower case of a text, are parameters.
pub mod Refused
mod Tests
use oxiterm.Common.{
  ℕ, ◌+◌, ◌-◌, ◌%◌, Bool, true, false, not, ◌&&◌, ◌||◌, ◌==◌, Option, none, some, List, [], ◌∷◌,
  if◌then◌else◌,
}
use oxiterm.Common.Outcome.{Result, ok, err}
use oxiterm.Common.Texts.{Text, codes, text_eq, contains_text}

-- The octets of an IPv4 address, and the first segment of an IPv6 address with the others.
pub data Host : Type 0 where
  ipv4 : ℕ → ℕ → ℕ → ℕ → Host
  ipv6 : ℕ → List ℕ → Host
  domain : Text → Host

pub record Url : Type 0 where
  pub scheme : Text
  pub host : Option Host

pub data UrlError : Type 0 where
  parse_error unsupported_scheme forbidden_address forbidden_domain no_host : UrlError

abbrev pub is_link_local_ipv4 : ℕ → ℕ → Bool
is_link_local_ipv4 a b = (a == 169) && (b == 254)

-- `segment & 0xffc0` of 16 bits.
abbrev pub is_link_local_ipv6 : ℕ → Bool
is_link_local_ipv6 segment = (segment - segment % 64) == 0xfe80

unfoldable pub validate_host : (Text → Text) → Option Host → Result UrlError (Unit {0})
unfolding contains_text
validate_host to_lowercase none = err no_host
validate_host to_lowercase (some (ipv4 a b c d)) =
    if is_link_local_ipv4 a b then err forbidden_address else ok tt
validate_host to_lowercase (some (ipv6 segment others)) =
    if is_link_local_ipv6 segment then err forbidden_address else ok tt
validate_host to_lowercase (some (domain name)) =
    let domain_lower = to_lowercase name in
    if contains_text domain_lower (codes "metadata") || contains_text domain_lower (codes "169.254")
    then err forbidden_domain
    else ok tt

unfoldable pub validate_app_server_url :
    (Text → Option Url) → (Text → Text) → Text → Result UrlError (Unit {0})
unfolding text_eq validate_host
validate_app_server_url parse to_lowercase url_str = elim (parse url_str) [
  | none ↦ err parse_error
  | some parsed ↦
      if not (text_eq parsed.scheme (codes "http")) && not (text_eq parsed.scheme (codes "https"))
      then err unsupported_scheme
      else validate_host to_lowercase parsed.host
]
