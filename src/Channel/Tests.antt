-- ===== src/Channel/Tests.antt =====
-- Examples of backpressure.rs.
use oxiterm.Common.{ℕ, ◌≡◌, refl, true, false, none, some, List, [], ◌∷◌, arith}
use oxiterm.Channel.{SendResult, sent, dropped, ChannelInner, Channel, try_send}
use oxiterm.Channel.Log
use oxiterm.Channel.Log.{
  Op, send, recv, ready, close_it, reopen_it, Reply, result, item, answer, done, Log,
}
use oxiterm.Channel.Refine.{run, call, Views, run_refines}

abbrev empty : ChannelInner ℕ
empty = record { queue = []; capacity = 2; is_closed = false }

abbrev blank : Log ℕ
blank = record { items = []; cursor = 0; shut = false }

-- `test_bounded_channel_capacity`, and what follows a closing.
abbrev script : List (Op ℕ)
script = send 1 ∷ send 2 ∷ send 3 ∷ recv ∷ recv ∷ recv ∷ close_it ∷ send 4 ∷ reopen_it ∷ ready ∷ []

run-script :
    run empty script
    ≡ result sent
      ∷ result sent
      ∷ result dropped
      ∷ item (some 2)
      ∷ item (some 3)
      ∷ item none
      ∷ done
      ∷ result SendResult.closed
      ∷ done
      ∷ answer true
      ∷ []
unfolding run call
run-script = refl

empty-Views : Views 2 empty blank
empty-Views = record {
  unread_part = refl;
  in_log = omega arith;
  fits = omega arith;
  same_capacity = refl;
  same_shut = refl;
}

run_refines_example : run empty script ≡ Log.run 2 blank script
run_refines_example = run_refines 2 (omega arith) script empty blank empty-Views

abbrev two_left : Channel ℕ
two_left = record { inner = record empty { queue = 7 ∷ 8 ∷ [] }; senders = 1 }

-- A sender puts 5 while the receiver waits.
abbrev send_five : ChannelInner ℕ → ChannelInner ℕ
send_five c = (try_send c 5).1
