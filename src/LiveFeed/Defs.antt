-- ===== src/LiveFeed/Defs.antt =====
-- RedisLiveFeed: packages/domain/src/uaagro_domain/livefeed.py. An event is of any type. A publish to
-- Redis is given with whether it returns or raises, connecting included; what a step sends to Redis
-- is what it returns beside the feed. The logging and the wait before a reconnect are left out.
use uaagro_voice_agent.Prelude.{
  ℕ, suc, Bool, true, false, Option, none, some, List, [], ◌∷◌, ◌++◌, length, ltb, if◌then◌else◌,
}

abbrev pub queue_size : ℕ
queue_size = 1000

-- The task that drains: none, one that waits for events, one that has returned.
pub data Task : Type 0 where
  absent : Task
  draining : Task
  returned : Task

abbrev pub started : Task → Task
started absent = draining
started draining = draining
started returned = returned

-- The queue holds none for the None that `close` puts.
module _ (E : Type 0) where
  pub record RedisLiveFeed : Type 0 where
    pub queue : List (Option E)
    pub maxsize : ℕ
    pub task : Task
    pub client : Bool
    pub dropped : ℕ
    pub published : ℕ

module _ {E : Type 0} where
  abbrev pub new_feed : ℕ → RedisLiveFeed E
  new_feed size = record {
    queue = [];
    maxsize = size;
    task = absent;
    client = false;
    dropped = 0;
    published = 0;
  }

  -- asyncio's queue: an item goes in at the end where there is room.
  abbrev pub has_room : RedisLiveFeed E → Bool
  has_room f = ltb (length f.queue) f.maxsize

  abbrev pub put_nowait : Option E → RedisLiveFeed E → RedisLiveFeed E
  put_nowait item f = record f { queue = f.queue ++ (item ∷ []) }

  unfoldable pub publish : E → RedisLiveFeed E → RedisLiveFeed E
  publish event f =
      if has_room f
      then record (put_nowait (some event) f) { task = started f.task }
      else record f { dropped = suc f.dropped }

  -- A turn of the loop of `_drain` with the item that it took.
  unfoldable pub drain_item :
      Option E → List (Option E) → Bool → RedisLiveFeed E → List E × RedisLiveFeed E
  drain_item none rest up f = ([], record f { queue = rest; task = returned })
  drain_item (some event) rest true f =
      ((event ∷ []), record f { queue = rest; client = true; published = suc f.published })
  drain_item (some event) rest false f =
      ([], record f { queue = rest; client = false; dropped = suc f.dropped })

  unfoldable pub drain_queue : List (Option E) → Bool → RedisLiveFeed E → List E × RedisLiveFeed E
  drain_queue [] up f = ([], f)
  drain_queue (item ∷ rest) up f = drain_item item rest up f

  -- A turn where there is a task; with an empty queue it waits.
  unfoldable pub drain_by : Task → Bool → RedisLiveFeed E → List E × RedisLiveFeed E
  drain_by absent up f = ([], f)
  drain_by returned up f = ([], f)
  drain_by draining up f = drain_queue f.queue up f

  unfoldable pub drain : Bool → RedisLiveFeed E → List E × RedisLiveFeed E
  drain up f = drain_by f.task up f

  -- `close` before it waits for the task: None is put where there is room.
  unfoldable pub ask_to_stop : Task → RedisLiveFeed E → RedisLiveFeed E
  ask_to_stop absent f = f
  ask_to_stop draining f = if has_room f then put_nowait none f else f
  ask_to_stop returned f = if has_room f then put_nowait none f else f

  -- `close` after the task has returned, or after five seconds of a task that holds no event.
  unfoldable pub stop : RedisLiveFeed E → RedisLiveFeed E
  stop f = record f { task = absent; client = false }

  -- `close` after five seconds of a task that is in the middle of a publish to Redis: the
  -- cancellation goes through it, so that its event is in neither count, whether Redis has got it or
  -- not.
  unfoldable pub cut_off : Bool → List (Option E) → RedisLiveFeed E → List E × RedisLiveFeed E
  cut_off reached [] f = ([], f)
  cut_off reached (none ∷ rest) f = ([], f)
  cut_off reached (some event ∷ rest) f =
      (if reached then event ∷ [] else [], stop (record f { queue = rest }))

  unfoldable pub cancel_by : Task → Bool → RedisLiveFeed E → List E × RedisLiveFeed E
  cancel_by absent reached f = ([], f)
  cancel_by returned reached f = ([], f)
  cancel_by draining reached f = cut_off reached f.queue f

  unfoldable pub cancel : Bool → RedisLiveFeed E → List E × RedisLiveFeed E
  cancel reached f = cancel_by f.task reached f
