-- ===== src/AudioCache/Examples.antt =====
-- AudioCache on runs of its own.
use uaagro_voice_agent.Prelude.{◌≡◌, refl, inl, true, false, none, some, List, [], ◌∷◌}
use uaagro_voice_agent.AudioCache.Defs.{
  new_cache, get, get_from, fetch, fetched, put, store_audio, invalidate_local,
}
use uaagro_voice_agent.AudioCache.Abstract.{
  Op, got, stored, invalidated, serve, Agrees, serve-Agrees,
}

abbrev requests : List Op
requests =
    got "namaste" true
    ∷ stored "namaste" (7 ∷ 8 ∷ [])
    ∷ got "namaste" false
    ∷ invalidated
    ∷ got "namaste" false
    ∷ got "namaste" true
    ∷ []

serve-requests : serve requests new_cache ≡ none ∷ some (7 ∷ 8 ∷ []) ∷ none ∷ some (7 ∷ 8 ∷ []) ∷ []
unfolding serve get get_from fetch fetched put store_audio invalidate_local
serve-requests = refl

serve-Agrees_example : Agrees requests [] (serve requests new_cache)
serve-Agrees_example = serve-Agrees requests new_cache [] ((λ key. refl), (λ key. inl refl))
