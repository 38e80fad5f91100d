-- ===== src/State/Patch/Tests.antt =====
-- A patch with a token, a reserved key, a number and a list.
use oxiterm.Common.{◌≡◌, ◌≢◌, refl, sym, ◌∙◌, true, false, some, [], ◌∷◌, arith}
use oxiterm.Common.Texts.{Text, codes, text_eq, starts_with}
use oxiterm.Common.TextMap.{value_of, insert}
use oxiterm.Common.Int.{pos}
use oxiterm.State.{int, str, StateManager, get, is_reserved, subscribers, get_dirty_nodes}
use oxiterm.State.Actions.{in_list}
use oxiterm.State.Patch.{
  Json, null, number, string, array, object, no_items, item, no_fields, field, app_token,
  apply_state_patch,
}
use oxiterm.State.Patch.Keys.{apply_state_patch-reserved, apply_state_patch-dirty}
use oxiterm.State.Patch.Limits.{all_small, apply_state_patch-small}

abbrev before : StateManager
before = record {
  store = (codes "hits", int (pos 1)) ∷ (codes "_role", str (codes "user")) ∷ [];
  subscriptions = (codes "hits", 7 ∷ []) ∷ [];
  dirty_keys = [];
}

abbrev patch : Json
patch = object (
    field (codes "_role") (string (codes "admin")) (
      field (codes "set_app_token") (string (codes "t0")) (
        field (codes "hits") (number (some (pos 2)) (codes "2")) (
          field (codes "tags") (array (item null (item (string (codes "x")) no_items)))
            no_fields))))

abbrev shown : Json → Text
shown v = codes "null"

new_token : (apply_state_patch shown before patch).1 ≡ some (codes "t0")
unfolding apply_state_patch value_of text_eq
new_token = refl

hits_after : get (apply_state_patch shown before patch).0 (codes "hits") ≡ some (int (pos 2))
unfolding apply_state_patch value_of text_eq starts_with insert
hits_after = refl

hits_before : get before (codes "hits") ≡ some (int (pos 1))
unfolding get value_of text_eq
hits_before = refl

two_one : some (int (pos 2)) ≢ some (int (pos 1))
two_one e = ground arith

hits_change :
    get (apply_state_patch shown before patch).0 (codes "hits") ≢ get before (codes "hits")
hits_change e = two_one (sym hits_after ∙ e ∙ hits_before)

hits_subscriber : in_list 7 (subscribers before (codes "hits")) ≡ true
unfolding in_list value_of text_eq
hits_subscriber = refl

role_reserved : is_reserved (codes "_role") ≡ true
unfolding starts_with
role_reserved = refl

role_other : text_eq app_token (codes "_role") ≡ false
unfolding text_eq
role_other = refl

tags_other : text_eq app_token (codes "tags") ≡ false
unfolding text_eq
tags_other = refl

tags_before : all_small (get before (codes "tags")) ≡ true
unfolding get value_of text_eq
tags_before = refl

apply_state_patch-reserved_example :
    get (apply_state_patch shown before patch).0 (codes "_role") ≡ get before (codes "_role")
apply_state_patch-reserved_example =
    apply_state_patch-reserved shown before patch (codes "_role") role_reserved role_other

apply_state_patch-dirty_example :
    in_list 7 (get_dirty_nodes (apply_state_patch shown before patch).0).0 ≡ true
apply_state_patch-dirty_example =
    apply_state_patch-dirty shown before patch (codes "hits") 7 hits_change hits_subscriber

apply_state_patch-small_example :
    all_small (get (apply_state_patch shown before patch).0 (codes "tags")) ≡ true
apply_state_patch-small_example =
    apply_state_patch-small shown before patch (codes "tags") tags_other tags_before
