-- ===== src/Identity.antt =====
-- oxiterm-server/src/identity.rs, with ClientSession::attach_identity of session.rs: who a session
-- belongs to, and the reserved keys that say it.
pub mod Kept
mod Tests
use oxiterm.Common.{ℕ, Bool, true, false, Option, none, some, List, [], ◌∷◌, if◌then◌else◌}
use oxiterm.Common.Texts.{Text, codes, text_eq, split_once}
use oxiterm.State.{StateValue, str, StateManager, set}

pub data AuthMethod : Type 0 where
  ssh_key : AuthMethod
  ssh_password : AuthMethod
  trusted_header : AuthMethod
  guest : AuthMethod

pub record UserIdentity : Type 0 where
  pub username : Text
  pub auth_method : AuthMethod

-- The identities by how a client has signed in.
abbrev pub by_ssh_key : Text → UserIdentity
by_ssh_key username = record { username = username; auth_method = ssh_key }

abbrev pub by_ssh_password : Text → UserIdentity
by_ssh_password username = record { username = username; auth_method = ssh_password }

abbrev pub ssh_no_auth : Text → UserIdentity
ssh_no_auth username = record { username = username; auth_method = guest }

abbrev pub as_guest : UserIdentity
as_guest = record { username = codes "guest"; auth_method = guest }

-- What stands before the first colon of an address.
abbrev pub proxy_ip : Text → Text
unfolding split_once
proxy_ip trusted_proxy = elim (split_once b':' trusted_proxy) [
  | none ↦ trusted_proxy
  | some (ip, _) ↦ ip
]

unfoldable pub from_trusted_header : Text → Text → Text → Option UserIdentity
unfolding text_eq proxy_ip
from_trusted_header header_value peer_ip trusted_proxy =
    if text_eq peer_ip (proxy_ip trusted_proxy)
    then some (record { username = header_value; auth_method = trusted_header })
    else none

-- The form of the derived `Debug`.
abbrev pub auth_text : AuthMethod → Text
auth_text ssh_key = codes "SshKey"
auth_text ssh_password = codes "SshPassword"
auth_text trusted_header = codes "TrustedHeader"
auth_text guest = codes "Guest"

abbrev pub web_text : Bool → Text
web_text true = codes "true"
web_text false = codes "false"

unfoldable pub inject_reserved_keys : UserIdentity → StateManager → Bool → StateManager
unfolding set
inject_reserved_keys id state is_web =
    set
      (set (set state (codes "_username") (str id.username)) (codes "_auth_method")
        (str (auth_text id.auth_method)))
      (codes "_is_web") (str (web_text is_web))

-- What `attach_identity` reads and writes of a session.
pub record ClientSession : Type 0 where
  pub state : StateManager
  pub identity : Option UserIdentity
  pub is_web_client : Bool

-- What becomes of a session by the identity it has.
unfoldable pub attach_to : ClientSession → UserIdentity → Option UserIdentity → Bool × ClientSession
unfolding inject_reserved_keys
attach_to s id (some _) = (false, s)
attach_to s id none =
    (true, record s { state = inject_reserved_keys id s.state s.is_web_client; identity = some id })

unfoldable pub attach_identity : ClientSession → UserIdentity → Bool × ClientSession
unfolding attach_to
attach_identity s id = attach_to s id s.identity
