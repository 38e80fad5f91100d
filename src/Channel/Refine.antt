-- ===== src/Channel/Refine.antt =====
-- The channel does what its log promises.
use oxiterm.Common.{
  ℕ, zero, suc, ◌+◌, ◌-◌, ◌≤◌, ◌<◌, ◌≡◌, refl, ◌∙◌, ap, ap₂, List, [], ◌∷◌, ◌++◌, length,
  length-append, length-drop, drop, get_elem?, arith,
}
use oxiterm.Channel.{ChannelInner, try_send, try_recv, poll_ready, close, reopen, front, rest}
use oxiterm.Channel.Log
use oxiterm.Channel.Log.{
  Op, send, recv, ready, close_it, reopen_it, Reply, result, item, answer, done, Log,
}

module _ {ℓ} {A : Type ℓ} where
  unfoldable pub call : ChannelInner A → Op A → Reply A × ChannelInner A
  unfolding try_send try_recv close reopen poll_ready
  call c (send x) = let (r, c') = try_send c x in (result r, c')
  call c recv = let (r, c') = try_recv c in (item r, c')
  call c ready = (answer (poll_ready c), c)
  call c close_it = (done, close c)
  call c reopen_it = (done, reopen c)

  unfoldable pub run : ChannelInner A → List (Op A) → List (Reply A)
  run c [] = []
  run c (op ∷ ops) = let (r, c') = call c op in r ∷ run c' ops

-- The queue holds what is unread of the log, and no more than the capacity.
pub record Views {ℓ} {A : Type ℓ} (capacity : ℕ) (c : ChannelInner A) (s : Log A) : Type ℓ where
  pub unread_part : c.queue ≡ drop s.cursor s.items
  pub in_log : s.cursor ≤ length s.items
  pub fits : length c.queue ≤ capacity
  pub same_capacity : c.capacity ≡ capacity
  pub same_shut : c.is_closed ≡ s.shut

module _ {ℓ} {A : Type ℓ} where
  drop-append : (n : ℕ) (xs ys : List A) → n ≤ length xs → drop n (xs ++ ys) ≡ drop n xs ++ ys
  drop-append zero xs ys h = refl
  drop-append (suc n) [] ys h = absurd (omega arith)
  drop-append (suc n) (x ∷ xs) ys h = drop-append n xs ys (omega arith)

  length-rest : (q : List A) → length (rest q) ≡ length q - 1
  length-rest [] = refl
  length-rest (x ∷ q) = omega arith

  rest-drop : (n : ℕ) (xs : List A) → rest (drop n xs) ≡ drop (suc n) xs
  rest-drop zero [] = refl
  rest-drop zero (x ∷ xs) = refl
  rest-drop (suc n) [] = refl
  rest-drop (suc n) (x ∷ xs) = rest-drop n xs

  front-drop : (n : ℕ) (xs : List A) → front (drop n xs) ≡ get_elem? xs n
  front-drop zero [] = refl
  front-drop zero (x ∷ xs) = refl
  front-drop (suc n) [] = refl
  front-drop (suc n) (x ∷ xs) = front-drop n xs

  drop-past : (xs : List A) (n : ℕ) → length xs ≤ n → drop n xs ≡ []
  drop-past [] zero h = refl
  drop-past [] (suc n) h = refl
  drop-past (x ∷ xs) zero h = absurd (omega arith)
  drop-past (x ∷ xs) (suc n) h = drop-past xs n (omega arith)

module _ {A : Type 0} (capacity : ℕ) (pos : 0 < capacity) (c : ChannelInner A) (s : Log A) where
  unread-eq : Views capacity c s → length c.queue ≡ length s.items - s.cursor
  unread-eq v = rw v.unread_part (length-drop s.cursor s.items)

  rest-queue : Views capacity c s → rest c.queue ≡ drop (s.cursor + 1) s.items
  rest-queue v =
      let e : suc s.cursor ≡ s.cursor + 1 = omega arith in
      ap rest v.unread_part ∙ rest-drop s.cursor s.items ∙ ap (λ n. drop n s.items) e

  front-queue : Views capacity c s → front c.queue ≡ get_elem? s.items s.cursor
  front-queue v = ap front v.unread_part ∙ front-drop s.cursor s.items

  -- One call of a channel that shows a log has the log's reply, and shows the log behind its step.
  pub call_refines :
      (op : Op A)
      → Views capacity c s
      → ((call c op).0 ≡ (Log.step capacity s op).0)
        × Views capacity (call c op).1 (Log.step capacity s op).1
  unfolding call Log.step
  call_refines (send x) v = ground (
    arith,
    unread-eq v,
    rest-queue v,
    length-rest c.queue,
    drop-append s.cursor s.items (x ∷ []),
    drop-append (s.cursor + 1) s.items (x ∷ []),
    length-append c.queue (x ∷ []),
    length-append (rest c.queue) (x ∷ []),
    length-append s.items (x ∷ []),
  )
  call_refines recv v = ground (
    arith,
    unread-eq v,
    front-queue v,
    rest-queue v,
    length-rest c.queue,
    drop-past s.items (s.cursor + 1),
    drop-past s.items s.cursor,
  )
  call_refines ready v = ground (arith, unread-eq v)
  call_refines close_it v = ground arith
  call_refines reopen_it v = ground (arith, drop-past s.items (length s.items))

module _ {A : Type 0} (capacity : ℕ) (pos : 0 < capacity) where
  -- No sequence of sends, receives, closings and openings tells the channel from the log with a
  -- cursor: the replies are the same. The capacity is at least one.
  pub run_refines :
      (ops : List (Op A)) (c : ChannelInner A) (s : Log A)
      → Views capacity c s
      → run c ops ≡ Log.run capacity s ops
  unfolding run Log.run
  run_refines [] c s v = refl
  run_refines (op ∷ ops) c s v =
      let (same, v') = call_refines capacity pos c s op v in
      ap₂ ◌∷◌ same (run_refines ops (call c op).1 (Log.step capacity s op).1 v')
