-- ===== src/Channel/Waits.antt =====
-- Receivers that wait, and the end of a channel.
use oxiterm.Common.{
  ℕ, zero, suc, ◌<◌, ◌≡◌, refl, ap, Bool, true, false, Option, none, some, List, [], ◌∷◌, ◌++◌,
  length, arith, ◌⊎◌, inl, inr,
}
use oxiterm.Channel.{
  ChannelInner, Channel, RecvResult, received, disconnected, timeout, blocking_recv, recv_timeout,
  take_or_fail, drop_sender,
}

module _ {A : Type 0} where
  -- `n` calls of `blocking_recv` with nothing happening between them; they stop where one waits.
  pub drain : ℕ → ChannelInner A → List (Option A)
  drain zero c = []
  drain (suc n) c = elim (blocking_recv c []) [ none ↦ [] | some (r, c') ↦ r ∷ drain n c' ]

  abbrev pub somes : List A → List (Option A)
  somes [] = []
  somes (x ∷ q) = some x ∷ somes q

  drain-closed :
      (q : List A) (capacity : ℕ)
      → drain (suc (length q)) (record { queue = q; capacity = capacity; is_closed = true })
        ≡ somes q ++ none ∷ []
  unfolding drain blocking_recv
  drain-closed [] capacity = refl
  drain-closed (x ∷ q) capacity = ap (λ l. some x ∷ l) (drain-closed q capacity)

  -- When the last sender is dropped, the receiver still gets all that is queued, in order, and then
  -- the end. While other senders are left, a drop changes nothing of the queue.
  drop_sender-drains :
      (c : Channel A)
      → (c.senders ≡ 1
          → drain (suc (length c.inner.queue)) (drop_sender c).inner
            ≡ somes c.inner.queue ++ none ∷ [])
        × (1 < c.senders → (drop_sender c).inner ≡ c.inner)
  unfolding drop_sender
  drop_sender-drains c =
      ((λ e. rw e (drain-closed c.inner.queue c.inner.capacity)), λ h. ground arith)

  -- What a result says of the channel that it was taken from.
  abbrev pub Explains : ChannelInner A → RecvResult A × ChannelInner A → Type 0
  Explains c (received x, c') = c.queue ≡ x ∷ c'.queue
  Explains c (disconnected, c') = (c.queue ≡ []) × (c.is_closed ≡ true) × (c' ≡ c)
  Explains c (timeout, c') = (c.queue ≡ []) × (c.is_closed ≡ false) × (c' ≡ c)

  take_or_fail-Explains :
      (q : List A) (capacity : ℕ) (b : Bool)
      → let c : ChannelInner A = record { queue = q; capacity = capacity; is_closed = b } in
        Explains c (take_or_fail c)
  take_or_fail-Explains [] capacity true = (refl, refl, refl)
  take_or_fail-Explains [] capacity false = (refl, refl, refl)
  take_or_fail-Explains (x ∷ q) capacity b = refl

  waited :
      (wait : ChannelInner A → ChannelInner A) (q : List A) (capacity : ℕ) (b : Bool)
      → let c : ChannelInner A = record { queue = q; capacity = capacity; is_closed = b } in
        Explains c (recv_timeout c wait)
        ⊎ ((q ≡ []) × (b ≡ false) × Explains (wait c) (recv_timeout c wait))
  unfolding recv_timeout
  waited wait [] capacity true = inl (refl, refl, refl)
  waited wait [] capacity false =
      let c : ChannelInner A =
        wait (record { queue = []; capacity = capacity; is_closed = false }) in
      inr (refl, refl, take_or_fail-Explains c.queue c.capacity c.is_closed)
  waited wait (x ∷ q) capacity b = inl refl

  -- `recv_timeout` returns the oldest item and takes that alone, reports a disconnection only on a
  -- closed and empty channel and a timeout only on an open and empty one: of the channel as it is,
  -- or, if that is open and empty, of the channel behind the wait.
  recv_timeout-Explains :
      (c : ChannelInner A) (wait : ChannelInner A → ChannelInner A)
      → Explains c (recv_timeout c wait)
        ⊎ ((c.queue ≡ []) × (c.is_closed ≡ false) × Explains (wait c) (recv_timeout c wait))
  recv_timeout-Explains c wait = waited wait c.queue c.capacity c.is_closed
