-- ===== src/AudioCache/Defs.antt =====
-- AudioCache over a store: apps/voice-worker/src/voice_worker/runtime/audio_cache.py. A key is what
-- cache_key makes of the text and the parameters, by a hash that is not modelled; a call of the
-- store is given with whether it returns or raises, and a store that returns is MemoryAudioStore.
use uaagro_voice_agent.Prelude.{
  ℕ, suc, Bool, true, false, Option, none, some, List, [], ◌∷◌, String, string_eq, lookup, insert,
}

abbrev pub Audio : Type 0
Audio = List ℕ

pub record CacheStats : Type 0 where
  pub hits : ℕ
  pub misses : ℕ
  pub stores : ℕ
  pub errors : ℕ

pub record AudioCache : Type 0 where
  pub items : List (String × Audio)
  pub local : List (String × Audio)
  pub stats : CacheStats

abbrev pub new_cache : AudioCache
new_cache = record {
  items = [];
  local = [];
  stats = record { hits = 0; misses = 0; stores = 0; errors = 0 };
}

abbrev pub count_hit : CacheStats → CacheStats
count_hit s = record s { hits = suc s.hits }

abbrev pub count_miss : CacheStats → CacheStats
count_miss s = record s { misses = suc s.misses }

abbrev pub count_store : CacheStats → CacheStats
count_store s = record s { stores = suc s.stores }

abbrev pub count_error : CacheStats → CacheStats
count_error s = record s { errors = suc s.errors }

-- `get` once the store has answered.
unfoldable pub fetched : String → Option Audio → AudioCache → Option Audio × AudioCache
fetched key none c = (none, record c { stats = count_miss c.stats })
fetched key (some audio) c =
    (some audio, record c { local = insert key audio c.local; stats = count_hit c.stats })

-- `get` past the local layer, by whether the store returns.
unfoldable pub fetch : String → Bool → AudioCache → Option Audio × AudioCache
fetch key true c = fetched key (lookup key c.items) c
fetch key false c = (none, record c { stats = count_error c.stats })

-- `get`, by what the local layer has.
unfoldable pub get_from : String → Bool → Option Audio → AudioCache → Option Audio × AudioCache
get_from key up (some audio) c = (some audio, record c { stats = count_hit c.stats })
get_from key up none c = fetch key up c

unfoldable pub get : String → Bool → AudioCache → Option Audio × AudioCache
get key up c = get_from key up (lookup key c.local) c

-- The store's part of `put`.
unfoldable pub store_audio : String → Audio → Bool → AudioCache → AudioCache
store_audio key audio true c = record c {
  items = insert key audio c.items;
  stats = count_store c.stats;
}
store_audio key audio false c = record c { stats = count_error c.stats }

-- No audio is not stored.
unfoldable pub put : String → Audio → Bool → AudioCache → AudioCache
put key [] up c = c
put key (b ∷ audio) up c =
    store_audio key (b ∷ audio) up (record c { local = insert key (b ∷ audio) c.local })

unfoldable pub invalidate_local : AudioCache → AudioCache
invalidate_local c = record c { local = [] }
