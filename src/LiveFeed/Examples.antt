-- ===== src/LiveFeed/Examples.antt =====
-- A feed of numbered events on a run of its own.
use uaagro_voice_agent.Prelude.{ℕ, ◌≡◌, refl, true, false, List, [], ◌∷◌}
use uaagro_voice_agent.LiveFeed.Defs.{
  RedisLiveFeed, new_feed, publish, drain, drain_by, drain_queue, drain_item, ask_to_stop, stop,
  cancel, cancel_by, cut_off,
}
use uaagro_voice_agent.LiveFeed.Delivery.{
  Step, offered, drained, asked, stopped, cancelled, run, offers, cancels, IsDelivered,
  run-IsDelivered,
}

-- Two places: the third event finds them taken, the second meets a Redis that is down, and the fifth
-- is cut off in its publish.
abbrev steps : List (Step ℕ)
steps =
    offered 1
    ∷ offered 2
    ∷ offered 3
    ∷ drained true
    ∷ drained false
    ∷ offered 4
    ∷ asked
    ∷ drained true
    ∷ drained true
    ∷ stopped
    ∷ offered 5
    ∷ cancelled true
    ∷ offered 6
    ∷ []

abbrev feed : RedisLiveFeed ℕ
feed = new_feed 2

run-steps : (run steps feed).0 ≡ 1 ∷ 4 ∷ 5 ∷ []
unfolding run publish drain drain_by drain_queue drain_item ask_to_stop stop cancel cancel_by
    cut_off
run-steps = refl

dropped_of_steps : (run steps feed).1.dropped ≡ 2
unfolding run publish drain drain_by drain_queue drain_item ask_to_stop stop cancel cancel_by
    cut_off
dropped_of_steps = refl

run-IsDelivered_example :
    IsDelivered feed (offers steps) (cancels steps) (run steps feed).0 (run steps feed).1
run-IsDelivered_example = run-IsDelivered steps feed
