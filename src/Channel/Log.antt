-- ===== src/Channel/Log.antt =====
-- What the channel promises: a log of all that was sent, of which the receiver reads on from a
-- cursor, and which never holds more than `capacity` unread items: the cursor moves past the oldest.
use oxiterm.Common.{
  ℕ, ◌+◌, ◌-◌, Bool, true, false, not, ◌&&◌, Option, List, [], ◌∷◌, ◌++◌, length, get_elem?, ltb,
  if◌then◌else◌,
}
use oxiterm.Channel.{SendResult, sent, dropped, closed}

-- A client's calls, and what each returns.
pub data Op {ℓ} (A : Type ℓ) : Type ℓ where
  send : A → Op A
  recv ready close_it reopen_it : Op A

pub data Reply {ℓ} (A : Type ℓ) : Type ℓ where
  result : SendResult → Reply A
  item : Option A → Reply A
  answer : Bool → Reply A
  done : Reply A

pub record Log {ℓ} (A : Type ℓ) : Type ℓ where
  pub items : List A
  pub cursor : ℕ
  pub shut : Bool

module _ {ℓ} {A : Type ℓ} (capacity : ℕ) where
  unread : Log A → ℕ
  unread s = length s.items - s.cursor

  unfoldable pub step : Log A → Op A → Reply A × Log A
  unfolding unread
  step s (send x) =
      if s.shut
      then (result closed, s)
      else if ltb (unread s) capacity
      then (result sent, record s { items = s.items ++ x ∷ [] })
      else (result dropped, record s { items = s.items ++ x ∷ []; cursor = s.cursor + 1 })
  step s recv = (
    item (get_elem? s.items s.cursor),
    if ltb s.cursor (length s.items) then record s { cursor = s.cursor + 1 } else s,
  )
  step s ready = (answer (not s.shut && ltb (unread s) capacity), s)
  step s close_it = (done, record s { shut = true })
  step s reopen_it = (done, record s { shut = false; cursor = length s.items })

  unfoldable pub run : Log A → List (Op A) → List (Reply A)
  run s [] = []
  run s (op ∷ ops) = let (r, s') = step s op in r ∷ run s' ops
