-- ===== src/Outbound/Deeds.antt =====
-- Which lists of deeds claim only what has happened before.
use uaagro_voice_agent.Prelude.{
  and_both, and_parts, ◌≡◌, refl, Bool, true, false, ◌&&◌, ◌||◌, List, [], ◌∷◌, ◌++◌, arith, String,
}
use uaagro_voice_agent.Outbound.Responder.{
  Deed, said, suppressed, delivered, ticketed, opt_out_line, whatsapp_sent_line, say_chunks,
}

-- A line that claims something is allowed after what it claims; the flags say what has happened.
abbrev pub is_allowed : Bool → Bool → Deed → Bool
is_allowed w s (said opt_out_line) = w
is_allowed w s (said whatsapp_sent_line) = s
is_allowed w s _ = true

abbrev pub is_write : Deed → Bool
is_write suppressed = true
is_write _ = false

abbrev pub is_delivery : Deed → Bool
is_delivery delivered = true
is_delivery _ = false

-- Every claim of a removal stands after a suppression that returned, and every claim of a message
-- after one that was accepted.
abbrev pub honest : Bool → Bool → List Deed → Bool
honest w s [] = true
honest w s (d ∷ ds) = is_allowed w s d && honest (w || is_write d) (s || is_delivery d) ds

allowed_later :
    (w s a b : Bool) (d : Deed) → is_allowed w s d ≡ true → is_allowed (w || a) (s || b) d ≡ true
allowed_later w s a b (said line) h = ground arith
allowed_later w s a b suppressed h = refl
allowed_later w s a b delivered h = refl
allowed_later w s a b ticketed h = refl

or_swap : (x y z : Bool) → ((x || y) || z) ≡ ((x || z) || y)
or_swap x y z = ground arith

honest_later :
    (w s a b : Bool) (ds : List Deed) → honest w s ds ≡ true → honest (w || a) (s || b) ds ≡ true
honest_later w s a b [] h = refl
honest_later w s a b (d ∷ ds) h =
    let both = and_parts (is_allowed w s d) _ h in
    let rest = honest_later (w || is_write d) (s || is_delivery d) a b ds both.1 in
    and_both (is_allowed (w || a) (s || b) d) _ (allowed_later w s a b d both.0)
      (rw (or_swap w a (is_write d), or_swap s b (is_delivery d)) rest)

pub honest-append :
    (w s : Bool) (xs ys : List Deed)
    → honest w s xs ≡ true
    → honest false false ys ≡ true
    → honest w s (xs ++ ys) ≡ true
honest-append w s [] ys h k = honest_later false false w s ys k
honest-append w s (d ∷ ds) ys h k =
    let both = and_parts (is_allowed w s d) _ h in
    and_both (is_allowed w s d) _ both.0
      (honest-append (w || is_write d) (s || is_delivery d) ds ys both.1 k)

pub honest-say_chunks : (w s : Bool) (cs : List String) → honest w s (say_chunks cs) ≡ true
unfolding say_chunks
honest-say_chunks w s [] = refl
honest-say_chunks w s (c ∷ cs) = honest-say_chunks (w || false) (s || false) cs
