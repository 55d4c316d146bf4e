-- ===== src/LiveFeed/Delivery.antt =====
-- What reaches Redis of what is published.
use uaagro_voice_agent.Prelude.{
  ℕ, suc, ◌+◌, ◌≤◌, ◌≡◌, refl, ap, Bool, true, false, Option, none, some, List, [], ◌∷◌, ◌++◌,
  length, if◌then◌else◌, arith,
}
use mathlib.Core.Path.{subst}
use uaagro_voice_agent.LiveFeed.Defs.{
  started, Task, absent, draining, returned, RedisLiveFeed, has_room, put_nowait, publish,
  drain_item, drain_queue, drain_by, drain, ask_to_stop, stop, cut_off, cancel_by, cancel,
}

-- What happens to a feed. A task that `close` gives up on holds no event where it is stopped, and one
-- where it is cancelled.
pub data Step (E : Type 0) : Type 0 where
  offered : E → Step E
  drained : Bool → Step E
  asked : Step E
  stopped : Step E
  cancelled : Bool → Step E

-- The first list is what is left of the second when some elements are taken out.
pub data Thinned {A : Type 0} : List A → List A → Type 0 where
  none_left : Thinned [] []
  kept : {xs ys : List A} {x : A} → Thinned xs ys → Thinned (x ∷ xs) (x ∷ ys)
  lost : {xs ys : List A} {x : A} → Thinned xs ys → Thinned xs (x ∷ ys)

module _ {E : Type 0} where
  -- The events, in order, that steps send to Redis, and the feed after them.
  unfoldable pub run : List (Step E) → RedisLiveFeed E → List E × RedisLiveFeed E
  run [] f = ([], f)
  run (offered e ∷ steps) f = run steps (publish e f)
  run (drained up ∷ steps) f =
      let now = drain up f in let rest = run steps now.1 in (now.0 ++ rest.0, rest.1)
  run (asked ∷ steps) f = run steps (ask_to_stop f.task f)
  run (stopped ∷ steps) f = run steps (stop f)
  run (cancelled reached ∷ steps) f =
      let now = cancel reached f in let rest = run steps now.1 in (now.0 ++ rest.0, rest.1)

  abbrev pub offers : List (Step E) → List E
  offers [] = []
  offers (offered e ∷ steps) = e ∷ offers steps
  offers (drained up ∷ steps) = offers steps
  offers (asked ∷ steps) = offers steps
  offers (stopped ∷ steps) = offers steps
  offers (cancelled reached ∷ steps) = offers steps

  -- How often `close` cancels the task in the middle of a publish.
  abbrev pub cancels : List (Step E) → ℕ
  cancels [] = 0
  cancels (offered e ∷ steps) = cancels steps
  cancels (drained up ∷ steps) = cancels steps
  cancels (asked ∷ steps) = cancels steps
  cancels (stopped ∷ steps) = cancels steps
  cancels (cancelled reached ∷ steps) = suc (cancels steps)

  abbrev pub events : List (Option E) → List E
  events [] = []
  events (none ∷ items) = events items
  events (some e ∷ items) = e ∷ events items

  put_in :
      (e : E) (q : List (Option E)) (os : List E)
      → events (q ++ (some e ∷ [])) ++ os ≡ events q ++ (e ∷ os)
  put_in e [] os = refl
  put_in e (none ∷ q) os = put_in e q os
  put_in e (some x ∷ q) os = ap (λ l. x ∷ l) (put_in e q os)

  put_one :
      (e : E) (q : List (Option E)) → length (events (q ++ (some e ∷ []))) ≡ suc (length (events q))
  put_one e [] = refl
  put_one e (none ∷ q) = put_one e q
  put_one e (some x ∷ q) = ap suc (put_one e q)

  put_none : (q : List (Option E)) → events (q ++ (none ∷ [])) ≡ events q
  put_none [] = refl
  put_none (none ∷ q) = put_none q
  put_none (some x ∷ q) = ap (λ l. x ∷ l) (put_none q)

  lost_inside : (x : E) (xs ys zs : List E) → Thinned zs (xs ++ ys) → Thinned zs (xs ++ (x ∷ ys))
  lost_inside x [] ys zs h = lost h
  lost_inside x (a ∷ xs) ys (_ ∷ zs) (kept h) = kept (lost_inside x xs ys zs h)
  lost_inside x (a ∷ xs) ys zs (lost h) = lost (lost_inside x xs ys zs h)

  all_kept : (xs : List E) → Thinned xs (xs ++ [])
  all_kept [] = none_left
  all_kept (x ∷ xs) = kept (all_kept xs)

  -- The offered events that a step counts, or has still in its queue.
  abbrev total : RedisLiveFeed E → ℕ
  total f = f.dropped + f.published + length (events f.queue)

  -- After steps from f: the counts add up but for the events that were cut off, of which Redis has
  -- got some, and what was sent or waits is in the order of the offers.
  abbrev pub IsDelivered : RedisLiveFeed E → List E → ℕ → List E → RedisLiveFeed E → Type 0
  IsDelivered f offers cancels sent r =
      (cut got : ℕ) × (cut ≤ cancels)
      × (got ≤ cut)
      × (total r + cut ≡ total f + length offers)
      × (r.published + got ≡ f.published + length sent)
      × Thinned (sent ++ events r.queue) (events f.queue ++ offers)

  offered_one :
      (room : Bool) (e : E) (f : RedisLiveFeed E) (os : List E) (n : ℕ) (sent : List E)
      (r : RedisLiveFeed E)
      → IsDelivered
          (if room
            then record (put_nowait (some e) f) { task = started f.task }
            else record f { dropped = suc f.dropped })
          os
          n
          sent
          r
      → IsDelivered f (e ∷ os) n sent r
  offered_one true e f os n sent r (cut, got, few, less, total_r, published_r, order) = (
    cut,
    got,
    few,
    less,
    omega (arith, total_r, put_one e f.queue),
    published_r,
    subst (Thinned (sent ++ events r.queue)) (put_in e f.queue os) order,
  )
  offered_one false e f os n sent r (cut, got, few, less, total_r, published_r, order) = (
    cut,
    got,
    few,
    less,
    omega (arith, total_r),
    published_r,
    lost_inside e (events f.queue) os (sent ++ events r.queue) order,
  )

  drained_one :
      (t : Task) (items : List (Option E)) (up : Bool) (f : RedisLiveFeed E) (os : List E) (n : ℕ)
      (sent : List E) (r : RedisLiveFeed E)
      → IsDelivered (drain_by t up (record f { queue = items })).1 os n sent r
      → IsDelivered
          (record f { queue = items })
          os
          n
          ((drain_by t up (record f { queue = items })).0 ++ sent)
          r
  unfolding drain_by drain_queue drain_item
  drained_one absent items up f os n sent r h = h
  drained_one returned items up f os n sent r h = h
  drained_one draining [] up f os n sent r h = h
  drained_one draining (none ∷ rest) up f os n sent r h = h
  drained_one draining (some e ∷ rest) true f os n sent r
        (cut, got, few, less, total_r, published_r, order) =
      (cut, got, few, less, omega (arith, total_r), omega (arith, published_r), kept order)
  drained_one draining (some e ∷ rest) false f os n sent r
        (cut, got, few, less, total_r, published_r, order) =
      (cut, got, few, less, omega (arith, total_r), published_r, lost order)

  put_by :
      (room : Bool) (f : RedisLiveFeed E) (os : List E) (n : ℕ) (sent : List E)
      (r : RedisLiveFeed E)
      → IsDelivered (if room then put_nowait none f else f) os n sent r
      → IsDelivered f os n sent r
  put_by true f os n sent r (cut, got, few, less, total_r, published_r, order) = (
    cut,
    got,
    few,
    less,
    omega (arith, total_r, ap length (put_none f.queue)),
    published_r,
    subst (λ l. Thinned (sent ++ events r.queue) (l ++ os)) (put_none f.queue) order,
  )
  put_by false f os n sent r h = h

  asked_one :
      (t : Task) (f : RedisLiveFeed E) (os : List E) (n : ℕ) (sent : List E) (r : RedisLiveFeed E)
      → IsDelivered (ask_to_stop t f) os n sent r
      → IsDelivered f os n sent r
  unfolding ask_to_stop
  asked_one absent f os n sent r h = h
  asked_one draining f os n sent r h = put_by (has_room f) f os n sent r h
  asked_one returned f os n sent r h = put_by (has_room f) f os n sent r h

  one_more :
      (f : RedisLiveFeed E) (os : List E) (n : ℕ) (sent : List E) (r : RedisLiveFeed E)
      → IsDelivered f os n sent r
      → IsDelivered f os (suc n) sent r
  one_more f os n sent r (cut, got, few, less, total_r, published_r, order) =
      (cut, got, omega (arith, few), less, total_r, published_r, order)

  cancelled_one :
      (t : Task) (items : List (Option E)) (reached : Bool) (f : RedisLiveFeed E) (os : List E)
      (n : ℕ) (sent : List E) (r : RedisLiveFeed E)
      → IsDelivered (cancel_by t reached (record f { queue = items })).1 os n sent r
      → IsDelivered
          (record f { queue = items })
          os
          (suc n)
          ((cancel_by t reached (record f { queue = items })).0 ++ sent)
          r
  unfolding cancel_by cut_off stop
  cancelled_one absent items reached f os n sent r h =
      one_more (record f { queue = items }) os n sent r h
  cancelled_one returned items reached f os n sent r h =
      one_more (record f { queue = items }) os n sent r h
  cancelled_one draining [] reached f os n sent r h =
      one_more (record f { queue = [] }) os n sent r h
  cancelled_one draining (none ∷ rest) reached f os n sent r h =
      one_more (record f { queue = (none ∷ rest) }) os n sent r h
  cancelled_one draining (some e ∷ rest) true f os n sent r
        (cut, got, few, less, total_r, published_r, order) =
      (
        suc cut,
        suc got,
        omega (arith, few),
        omega (arith, less),
        omega (arith, total_r),
        omega (arith, published_r),
        kept order,
      )
  cancelled_one draining (some e ∷ rest) false f os n sent r
        (cut, got, few, less, total_r, published_r, order) =
      (
        suc cut,
        got,
        omega (arith, few),
        omega (arith, less),
        omega (arith, total_r),
        published_r,
        lost order,
      )

  -- Whatever is published, drained, closed and published again: every event that is offered is
  -- counted once, as dropped or as published, or waits in the queue, but for those that a `close` cut
  -- off in the middle of their publish, one at most for each such close; the events that were sent to
  -- Redis are those that `published` counts and some of those that were cut off; and those that were
  -- sent, followed by those that wait, are the events that were in the queue and were offered, in
  -- their order, less some: none is sent twice, before an older one, or without having been offered.
  pub run-IsDelivered :
      (steps : List (Step E)) (f : RedisLiveFeed E)
      → IsDelivered f (offers steps) (cancels steps) (run steps f).0 (run steps f).1
  unfolding run publish drain stop cancel
  run-IsDelivered [] f =
      (0, 0, omega arith, omega arith, omega arith, omega arith, all_kept (events f.queue))
  run-IsDelivered (offered e ∷ steps) f =
      let after = publish e f in
      offered_one (has_room f) e f (offers steps) (cancels steps) (run steps after).0
        (run steps after).1 (run-IsDelivered steps after)
  run-IsDelivered (drained up ∷ steps) f =
      let after = (drain up f).1 in
      drained_one f.task f.queue up f (offers steps) (cancels steps) (run steps after).0
        (run steps after).1 (run-IsDelivered steps after)
  run-IsDelivered (asked ∷ steps) f =
      let after = ask_to_stop f.task f in
      asked_one f.task f (offers steps) (cancels steps) (run steps after).0 (run steps after).1
        (run-IsDelivered steps after)
  run-IsDelivered (stopped ∷ steps) f = run-IsDelivered steps (stop f)
  run-IsDelivered (cancelled reached ∷ steps) f =
      let after = (cancel reached f).1 in
      cancelled_one f.task f.queue reached f (offers steps) (cancels steps) (run steps after).0
        (run steps after).1 (run-IsDelivered steps after)
