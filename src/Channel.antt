-- ===== src/Channel.antt =====
-- oxiterm-server/src/backpressure.rs: the bounded channel of frames. The lock makes each method one
-- step on `ChannelInner`. A receiver that waits gives the lock up, so what the other side does in
-- the meantime is an argument. Wake-ups (`Notify`, `Condvar`) only end a wait and are not modelled.
pub mod Log
pub mod Refine
pub mod Waits
mod Tests
use oxiterm.Common.{
  ℕ, ◌+◌, ◌-◌, Bool, true, false, not, ◌&&◌, Option, none, some, List, [], ◌∷◌, ◌++◌, length, ltb,
  leb, ◌==◌, if◌then◌else◌,
}

pub data SendResult : Type 0 where
  sent dropped closed : SendResult

-- `mpsc::RecvTimeoutError`, with the item of an `Ok`.
pub data RecvResult {ℓ} (A : Type ℓ) : Type ℓ where
  received : A → RecvResult A
  disconnected timeout : RecvResult A

pub record ChannelInner {ℓ} (A : Type ℓ) : Type ℓ where
  pub queue : List A
  pub capacity : ℕ
  pub is_closed : Bool

-- The senders are counted by the strong count of `senders`.
pub record Channel {ℓ} (A : Type ℓ) : Type ℓ where
  pub inner : ChannelInner A
  pub senders : ℕ

abbrev pub new {ℓ} : {A : Type ℓ} → ℕ → Channel A
new capacity = record {
  inner = record { queue = []; capacity = capacity; is_closed = false };
  senders = 1;
}

module _ {ℓ} {A : Type ℓ} where
  -- `VecDeque::pop_front`
  abbrev pub front : List A → Option A
  front [] = none
  front (x ∷ q) = some x

  abbrev pub rest : List A → List A
  rest [] = []
  rest (x ∷ q) = q

  pub try_send : ChannelInner A → A → SendResult × ChannelInner A
  try_send c item =
      if c.is_closed
      then (closed, c)
      else if leb c.capacity (length c.queue)
      then (dropped, record c { queue = rest c.queue ++ item ∷ [] })
      else (sent, record c { queue = c.queue ++ item ∷ [] })

  pub poll_ready : ChannelInner A → Bool
  poll_ready c = not c.is_closed && ltb (length c.queue) c.capacity

  pub try_recv : ChannelInner A → Option A × ChannelInner A
  try_recv c = (front c.queue, record c { queue = rest c.queue })

  pub close : ChannelInner A → ChannelInner A
  close c = record c { is_closed = true }

  pub reopen : ChannelInner A → ChannelInner A
  reopen c = record c { is_closed = false; queue = [] }

  -- The body of the loops of `recv` and `blocking_recv`: `none` waits and tries again.
  abbrev pub attempt : ChannelInner A → Option (Option A × ChannelInner A)
  attempt c = elim c.queue [
    | x ∷ q ↦ some (some x, record c { queue = q })
    | [] ↦ if c.is_closed then some (none, c) else none
  ]

  -- `recv` and `blocking_recv`; the list holds what the other side does in each wait, and the result
  -- is `none` where the receiver still waits at its end.
  pub blocking_recv :
      ChannelInner A → List (ChannelInner A → ChannelInner A) → Option (Option A × ChannelInner A)
  blocking_recv c [] = attempt c
  blocking_recv c (wait ∷ waits) = elim (attempt c) [
    | some r ↦ some r
    | none ↦ blocking_recv (wait c) waits
  ]

  abbrev is_empty : List A → Bool
  is_empty [] = true
  is_empty (_ ∷ _) = false

  -- What follows the wait of `recv_timeout`.
  abbrev pub take_or_fail : ChannelInner A → RecvResult A × ChannelInner A
  take_or_fail c = elim c.queue [
    | x ∷ q ↦ (received x, record c { queue = q })
    | [] ↦ (if c.is_closed then disconnected else timeout, c)
  ]

  pub recv_timeout :
      ChannelInner A → (ChannelInner A → ChannelInner A) → RecvResult A × ChannelInner A
  recv_timeout c wait = take_or_fail (if is_empty c.queue && not c.is_closed then wait c else c)

  -- `Clone` and `Drop` of a sender.
  pub clone_sender : Channel A → Channel A
  clone_sender c = record c { senders = c.senders + 1 }

  pub drop_sender : Channel A → Channel A
  unfolding close
  drop_sender c = record c {
    inner = if c.senders == 1 then close c.inner else c.inner;
    senders = c.senders - 1;
  }
