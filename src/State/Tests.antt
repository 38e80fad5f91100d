-- ===== src/State/Tests.antt =====
-- A counter with a subscriber, and a user's name that actions may not write.
use oxiterm.Common.{◌≡◌, ◌≢◌, refl, subst, sym, ◌∙◌, true, false, some, [], ◌∷◌, arith}
use oxiterm.Common.Texts.{
  Text, codes, split_once, split_if, trim, is_whitespace, starts_with, text_eq,
}
use oxiterm.Common.TextMap.{value_of, insert, without}
use oxiterm.Common.Int.{pos, IsI64, saturating_inc}
use oxiterm.State.{
  int, str, list, StateManager, get, apply_action, subscribers, get_dirty_nodes, is_reserved,
  current_int,
}
use oxiterm.State.Actions.{in_list, apply_action-reserved, apply_action-dirty}
use oxiterm.State.Counts.{up, down, IsKey, from_least, counted_to, CountsTo, apply_action-CountsTo}
use oxiterm.State.Bindings.{evaluate_bind_show}

abbrev counter : StateManager
counter = record {
  store = (codes "count", int (pos 1)) ∷ (codes "_username", str (codes "ann")) ∷ [];
  subscriptions = (codes "count", 3 ∷ []) ∷ [];
  dirty_keys = [];
}

abbrev clicks : Text
clicks = codes " inc:count ;set:_username=eve,append:log=x"

counted : get (apply_action counter clicks) (codes "count") ≡ some (int (pos 2))
unfolding apply_action value_of split_if trim split_once starts_with text_eq without saturating_inc
    insert
counted = refl

logged : get (apply_action counter clicks) (codes "log") ≡ some (list (codes "x" ∷ []))
unfolding apply_action value_of split_if trim split_once starts_with text_eq without saturating_inc
    insert
logged = refl

reserved_name : is_reserved (codes "_username") ≡ true
unfolding starts_with
reserved_name = refl

apply_action-reserved_example :
    get (apply_action counter clicks) (codes "_username") ≡ get counter (codes "_username")
apply_action-reserved_example =
    apply_action-reserved counter clicks (codes "_username") reserved_name

count_before : get counter (codes "count") ≡ some (int (pos 1))
unfolding get value_of text_eq
count_before = refl

two_one : some (int (pos 2)) ≢ some (int (pos 1))
two_one e = ground arith

count_changes : get (apply_action counter clicks) (codes "count") ≢ get counter (codes "count")
count_changes e = two_one (sym counted ∙ e ∙ count_before)

count_subscriber : in_list 3 (subscribers counter (codes "count")) ≡ true
unfolding in_list value_of text_eq
count_subscriber = refl

apply_action-dirty_example : in_list 3 (get_dirty_nodes (apply_action counter clicks)).0 ≡ true
apply_action-dirty_example =
    apply_action-dirty counter clicks (codes "count") 3 count_changes count_subscriber

count_IsKey : IsKey (codes "count")
unfolding is_whitespace
count_IsKey = (
  (refl, refl, refl),
  ((refl, refl, refl), ((refl, refl, refl), ((refl, refl, refl), ((refl, refl, refl), tt)))),
)

count_free : is_reserved (codes "count") ≡ false
unfolding starts_with
count_free = refl

-- From 1 the counter goes to 0, to -1 and to 0 again.
apply_action-CountsTo_example :
    CountsTo
      (apply_action counter (codes "dec:count;dec:count;inc:count"))
      (codes "count")
      (counted_to (down ∷ down ∷ up ∷ []) (from_least (current_int (get counter (codes "count")))))
apply_action-CountsTo_example =
    apply_action-CountsTo counter (codes "count") down (down ∷ up ∷ []) count_IsKey count_free
      (subst (λ o. IsI64 (current_int o)) (sym count_before) (omega arith))

shown_not_zero : evaluate_bind_show counter (codes "count") ≡ true
unfolding evaluate_bind_show get value_of text_eq split_once
shown_not_zero = refl
