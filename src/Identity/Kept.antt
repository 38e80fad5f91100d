-- ===== src/Identity/Kept.antt =====
-- A session keeps the name it was given, whatever its client and its application do.
use oxiterm.Common.{List, [], ◌∷◌}
use oxiterm.Common.Texts.{Text}
use oxiterm.State.{apply_action}
use oxiterm.State.Patch.{Json, apply_state_patch}
use oxiterm.Identity.{UserIdentity, ClientSession, attach_identity}

-- What changes the state of a session behind its start: an action of a node or of its client, a
-- patch of the application server, or an attempt to give it another identity.
pub data SessionEvent : Type 0 where
  action : Text → SessionEvent
  patch : Json → SessionEvent
  attach : UserIdentity → SessionEvent

unfoldable pub run_event : (Json → Text) → ClientSession → SessionEvent → ClientSession
unfolding apply_state_patch attach_identity
run_event to_string s (action text) = record s { state = apply_action s.state text }
run_event to_string s (patch json) = record s {
  state = (apply_state_patch to_string s.state json).0;
}
run_event to_string s (attach id) = (attach_identity s id).1

unfoldable pub run_events : (Json → Text) → ClientSession → List SessionEvent → ClientSession
unfolding run_event
run_events to_string s [] = s
run_events to_string s (e ∷ events) = run_events to_string (run_event to_string s e) events
