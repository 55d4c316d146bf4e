-- ===== src/AudioCache/Abstract.antt =====
-- The cache as a map from keys to what was last put under them.
use uaagro_voice_agent.Prelude.{
  ◌≡◌, refl, sym, ◌∙◌, ap, Bool, true, false, Option, none, some, ◌⊎◌, inl, inr, List, [], ◌∷◌,
  String, string_eq, str_eq, lookup, insert, lookup-insert, arith, if◌then◌else◌, Bool-cases,
}
use mathlib.Core.Path.{subst, subst₂}
use uaagro_voice_agent.AudioCache.Defs.{
  Audio, AudioCache, fetched, fetch, get_from, get, store_audio, put, invalidate_local,
}

-- What is asked of the cache; a get whose store may be down, a put whose store returns.
pub data Op : Type 0 where
  got : String → Bool → Op
  stored : String → Audio → Op
  invalidated : Op

-- The answers of the cache to the gets among the operations.
unfoldable pub serve : List Op → AudioCache → List (Option Audio)
serve [] c = []
serve (got key up ∷ ops) c = (get key up c).0 ∷ serve ops (get key up c).1
serve (stored key audio ∷ ops) c = serve ops (put key audio true c)
serve (invalidated ∷ ops) c = serve ops (invalidate_local c)

-- The map that is promised: a put of some audio is kept, of none is not.
abbrev pub Spec : Type 0
Spec = List (String × Audio)

abbrev pub spec_put : String → Audio → Spec → Spec
spec_put key [] m = m
spec_put key (b ∷ audio) m = insert key (b ∷ audio) m

-- Answers that the promise allows: what the map has, or nothing where the store was down.
abbrev pub Agrees : List Op → Spec → List (Option Audio) → Type 0
Agrees [] m answers = answers ≡ []
Agrees (got key up ∷ ops) m [] = false ≡ true
Agrees (got key up ∷ ops) m (answer ∷ answers) =
    ((answer ≡ lookup key m) ⊎ ((up ≡ false) × (answer ≡ none))) × Agrees ops m answers
Agrees (stored key audio ∷ ops) m answers = Agrees ops (spec_put key audio m) answers
Agrees (invalidated ∷ ops) m answers = Agrees ops m answers

-- The store is the map, and the local layer has nothing that the map has not.
abbrev pub IsAbstracted : AudioCache → Spec → Type 0
IsAbstracted c m =
    ((key : String) → lookup key c.items ≡ lookup key m)
    × ((key : String) → (lookup key c.local ≡ none) ⊎ (lookup key c.local ≡ lookup key m))

insert_both :
    (key j : String) (a : Audio) (xs ys : Spec)
    → lookup j xs ≡ lookup j ys
    → lookup j (insert key a xs) ≡ lookup j (insert key a ys)
insert_both key j a xs ys h =
    lookup-insert key j a xs
    ∙ (ap (λ r. if str_eq key j then some a else r) h ∙ sym (lookup-insert key j a ys))

insert_local :
    (key j : String) (a : Audio) (xs ys : Spec)
    → lookup key ys ≡ some a
    → (lookup j xs ≡ none) ⊎ (lookup j xs ≡ lookup j ys)
    → (lookup j (insert key a xs) ≡ none) ⊎ (lookup j (insert key a xs) ≡ lookup j ys)
insert_local key j a xs ys e h = elim (Bool-cases (str_eq key j)) [
  | inl same ↦ inr (
      lookup-insert key j a xs
      ∙ (ap (λ t. if t then some a else lookup j xs) same
          ∙ (sym e ∙ ap (λ k. lookup k ys) ((string_eq.beq_iff key j).0 same))))
  | inr other ↦
      subst (λ r. (r ≡ none) ⊎ (r ≡ lookup j ys))
        (sym (lookup-insert key j a xs ∙ ap (λ t. if t then some a else lookup j xs) other)) h
]

insert_kept :
    (key j : String) (a : Audio) (xs ys : Spec)
    → (lookup j xs ≡ none) ⊎ (lookup j xs ≡ lookup j ys)
    → (lookup j (insert key a xs) ≡ none)
      ⊎ (lookup j (insert key a xs) ≡ lookup j (insert key a ys))
insert_kept key j a xs ys h =
    let xs_set = lookup-insert key j a xs in
    let ys_set = lookup-insert key j a ys in
    elim (Bool-cases (str_eq key j)) [
      | inl same ↦ inr (
          xs_set
          ∙ ((ap (λ t. if t then some a else lookup j xs) same
                ∙ sym (ap (λ t. if t then some a else lookup j ys) same))
              ∙ sym ys_set))
      | inr other ↦
          subst₂ (λ x y. (x ≡ none) ⊎ (x ≡ y))
            (sym (xs_set ∙ ap (λ t. if t then some a else lookup j xs) other))
            (sym (ys_set ∙ ap (λ t. if t then some a else lookup j ys) other)) h
    ]

-- The store has what the map has, so a get that asks it agrees and may keep the answer.
fetched-agrees :
    (key : String) (r : Option Audio) (c : AudioCache) (m : Spec)
    → lookup key m ≡ r
    → IsAbstracted c m
    → ((fetched key r c).0 ≡ lookup key m) × IsAbstracted (fetched key r c).1 m
unfolding fetched
fetched-agrees key none c m e h = (sym e, h)
fetched-agrees key (some a) c m e (items, kept) =
    (sym e, (items, λ j. insert_local key j a c.local m e (kept j)))

get_from-agrees :
    (key : String) (up : Bool) (r : Option Audio) (c : AudioCache) (m : Spec)
    → (r ≡ none) ⊎ (r ≡ lookup key m)
    → IsAbstracted c m
    → (((get_from key up r c).0 ≡ lookup key m) ⊎ ((up ≡ false) × ((get_from key up r c).0 ≡ none)))
      × IsAbstracted (get_from key up r c).1 m
unfolding get_from fetch
get_from-agrees key up (some a) c m (inl e) h = absurd (ground arith)
get_from-agrees key up (some a) c m (inr e) h = (inl e, h)
get_from-agrees key true none c m e h =
    let (answer, after) = fetched-agrees key (lookup key c.items) c m (sym (h.0 key)) h in
    (inl answer, after)
get_from-agrees key false none c m e h = (inr (refl, refl), h)

get-agrees :
    (key : String) (up : Bool) (c : AudioCache) (m : Spec)
    → IsAbstracted c m
    → (((get key up c).0 ≡ lookup key m) ⊎ ((up ≡ false) × ((get key up c).0 ≡ none)))
      × IsAbstracted (get key up c).1 m
unfolding get
get-agrees key up c m h = get_from-agrees key up (lookup key c.local) c m (h.1 key) h

put-agrees :
    (key : String) (audio : Audio) (c : AudioCache) (m : Spec)
    → IsAbstracted c m
    → IsAbstracted (put key audio true c) (spec_put key audio m)
unfolding put store_audio
put-agrees key [] c m h = h
put-agrees key (b ∷ audio) c m (items, kept) = (
  (λ j. insert_both key j (b ∷ audio) c.items m (items j)),
  (λ j. insert_kept key j (b ∷ audio) c.local m (kept j)),
)

-- Take a cache whose store is the map m and whose local layer has only keys that are there with the
-- same audio. Whatever is then got, put and invalidated in whatever order, while every put reaches
-- the store, each get is answered by the audio that was last put under its key (by m where none was,
-- by none where m has none), and may answer none besides only where the store was down.
pub serve-Agrees :
    (ops : List Op) (c : AudioCache) (m : Spec) → IsAbstracted c m → Agrees ops m (serve ops c)
unfolding serve invalidate_local
serve-Agrees [] c m h = refl
serve-Agrees (got key up ∷ ops) c m h =
    let (answer, after) = get-agrees key up c m h in
    (answer, serve-Agrees ops (get key up c).1 m after)
serve-Agrees (stored key audio ∷ ops) c m h =
    serve-Agrees ops (put key audio true c) (spec_put key audio m) (put-agrees key audio c m h)
serve-Agrees (invalidated ∷ ops) c m h =
    serve-Agrees ops (invalidate_local c) m (h.0, λ k. inl refl)
