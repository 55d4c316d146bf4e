-- ===== src/Phone/Digits.antt =====
-- The prefixes of a number, one at a time.
use uaagro_voice_agent.Prelude.{
  ◌-◌, drop-drop, ◌≢◌, ◌+◌, drop, ℕ, ◌≤◌, ◌≡◌, refl, ap, ◌∙◌, Bool, true, false, ◌&&◌, [], ◌∷◌,
  length, all, codes, ltb, ◌==◌, arith, Bool-cases, inl, inr, if_by, if◌then◌else◌, and_parts, some,
}
use uaagro_voice_agent.Phone.Defs.{
  empty, country_code, Text, keep_digits, starts_with, strip_access, strip_country, strip_trunk,
  is_mobile, invalid, msisdn, checked, normalise_digits,
}
use uaagro_voice_agent.Phone.Direction.{national}

-- Ten digits of a mobile number.
abbrev pub IsCanonical : (ℕ → Bool) → Text → Type 0
IsCanonical is_digit n = (length n ≡ 10) × (is_mobile n ≡ true) × (all is_digit n ≡ true)

-- What is asked of the digits and the white space: the characters that the prefixes are made of
-- are told apart, and no digit is white space.
pub record IsAscii (is_digit is_space : ℕ → Bool) : Type 0 where
  pub zero_digit : is_digit 48 ≡ true
  pub one_digit : is_digit 49 ≡ true
  pub nine_digit : is_digit 57 ≡ true
  pub plus_no_digit : is_digit 43 ≡ false
  pub digit_no_space : (c : ℕ) → is_digit c ≡ true → is_space c ≡ false

checked-msisdn :
    (ds n : Text) → checked ds ≡ msisdn n → (ds ≡ n) × (length n ≡ 10) × (is_mobile n ≡ true)
unfolding checked
checked-msisdn ds n h = elim (Bool-cases (length ds == 10)) [
  | inr e ↦ absurd (ground arith)
  | inl e ↦ elim (Bool-cases (is_mobile ds)) [
    | inr f ↦ absurd (ground arith)
    | inl f ↦ ground arith
  ]
]

pub keep_digits-all :
    (is_digit : ℕ → Bool) (raw : Text) → all is_digit (keep_digits is_digit raw) ≡ true
unfolding keep_digits
keep_digits-all is_digit [] = refl
keep_digits-all is_digit (c ∷ raw) = elim (Bool-cases (is_digit c)) [
  | inl e ↦ rw (e, e) (keep_digits-all is_digit raw)
  | inr e ↦ rw e (keep_digits-all is_digit raw)
]

pub keep_digits-digits :
    (is_digit : ℕ → Bool) (n : Text) → all is_digit n ≡ true → keep_digits is_digit n ≡ n
unfolding keep_digits
keep_digits-digits is_digit [] h = refl
keep_digits-digits is_digit (c ∷ n) h =
    let (d, rest) = and_parts (is_digit c) _ h in rw (d, keep_digits-digits is_digit n rest) refl

not_zero : (c : ℕ) (n : Text) → is_mobile (c ∷ n) ≡ true → 48 == c ≡ false
unfolding is_mobile
not_zero c n m = ground arith

strip_access-none : (c : ℕ) (n : Text) → 48 == c ≡ false → strip_access (c ∷ n) ≡ c ∷ n
unfolding strip_access
strip_access-none c n e = rw e refl

strip_access-trunk : (c : ℕ) (n : Text) → 48 == c ≡ false → strip_access (48 ∷ c ∷ n) ≡ 48 ∷ c ∷ n
unfolding strip_access
strip_access-trunk c n e = rw e refl

strip_access-double : (n : Text) → strip_access (48 ∷ 48 ∷ n) ≡ n
unfolding strip_access
strip_access-double n = refl

strip_country-short : (ds : Text) → ltb 10 (length ds) ≡ false → strip_country ds ≡ ds
unfolding strip_country
strip_country-short ds e = rw e refl

strip_country-zero : (n : Text) → strip_country (48 ∷ n) ≡ 48 ∷ n
unfolding strip_country
strip_country-zero n =
    if_by (λ x. x ≡ 48 ∷ n) (ltb 10 (length (48 ∷ n)) && false) _ _ (λ e. absurd (ground arith))
      (λ _. refl)

strip_country-long :
    (n : Text) → ltb 10 (length (57 ∷ 49 ∷ n)) ≡ true → strip_country (57 ∷ 49 ∷ n) ≡ n
unfolding strip_country
strip_country-long n e = rw e refl

strip_trunk-none : (ds : Text) → length ds == 11 ≡ false → strip_trunk ds ≡ ds
unfolding strip_trunk
strip_trunk-none ds e = rw e refl

strip_trunk-zero : (n : Text) → length (48 ∷ n) == 11 ≡ true → strip_trunk (48 ∷ n) ≡ n
unfolding strip_trunk
strip_trunk-zero n e = rw e refl

checked-mobile : (ds : Text) → length ds == 10 ≡ true → is_mobile ds ≡ true → checked ds ≡ msisdn ds
unfolding checked
checked-mobile ds e m = rw (e, m) refl

-- The prefixes come off a mobile number, whichever it has.
pub normalise_digits-prefixed :
    (c : ℕ) (n : Text)
    → is_mobile (c ∷ n) ≡ true
    → length n ≡ 9
    → (normalise_digits (c ∷ n) ≡ msisdn (c ∷ n))
      × (normalise_digits (48 ∷ c ∷ n) ≡ msisdn (c ∷ n))
      × (normalise_digits (57 ∷ 49 ∷ c ∷ n) ≡ msisdn (c ∷ n))
      × (normalise_digits (48 ∷ 48 ∷ 57 ∷ 49 ∷ c ∷ n) ≡ msisdn (c ∷ n))
unfolding normalise_digits
normalise_digits-prefixed c n m l =
    let z = not_zero c n m in
    let done = checked-mobile (c ∷ n) (ground (arith, l)) m in
    let trunk = strip_trunk-none (c ∷ n) (ground (arith, l)) in
    let country = strip_country-long (c ∷ n) (ground (arith, l)) in
    (
      rw (strip_access-none c n z, strip_country-short (c ∷ n) (ground (arith, l)), trunk) done,
      rw
          (
            strip_access-trunk c n z,
            strip_country-zero (c ∷ n),
            strip_trunk-zero (c ∷ n) (ground (arith, l)),
          )
          done,
      rw (strip_access-none 57 (49 ∷ c ∷ n) refl, country, trunk) done,
      rw (strip_access-double (57 ∷ 49 ∷ c ∷ n), country, trunk) done,
    )

-- The digits with all three prefixes off.
abbrev pub stripped : Text → Text
stripped ds = strip_trunk (strip_country (strip_access ds))

abbrev pub IsDrop : Text → Text → Type 0
IsDrop xs ys = (k : ℕ) × (ys ≡ drop k xs)

IsDrop-trans : (xs ys zs : Text) → IsDrop xs ys → IsDrop ys zs → IsDrop xs zs
IsDrop-trans xs ys zs (j, e) (k, f) = (j + k, f ∙ (ap (drop k) e ∙ drop-drop j k (j + k) xs refl))

IsDrop-if : (b : Bool) (k : ℕ) (xs : Text) → IsDrop xs (if b then drop k xs else xs)
IsDrop-if true k xs = (k, refl)
IsDrop-if false k xs = (0, refl)

pub stripped-IsDrop : (ds : Text) → IsDrop ds (stripped ds)
unfolding strip_trunk strip_country strip_access
stripped-IsDrop ds =
    let a = strip_access ds in
    let c = strip_country a in
    IsDrop-trans ds c (strip_trunk c)
      (IsDrop-trans ds a c (IsDrop-if (starts_with (codes "00") ds) 2 ds)
        (IsDrop-if (ltb 10 (length a) && starts_with country_code a) 2 a))
      (IsDrop-if (length c == 11 && starts_with (codes "0") c) 1 c)

-- A number whose trunk zero leaves a mobile number begins with no one.
no_one :
    (b : Bool) (c : ℕ) (xs ds : Text)
    → is_mobile (if b && (48 == c && true) then xs else c ∷ ds) ≡ true
    → 49 == c ≡ false
unfolding is_mobile
no_one b c xs ds h = ground arith

pub no_service_head :
    (ds : Text)
    → is_mobile (strip_trunk ds) ≡ true
    → (prefix : Text) → starts_with (49 ∷ prefix) ds ≡ false
unfolding strip_trunk
no_service_head [] h prefix = refl
no_service_head (c ∷ ds) h prefix = rw (no_one (length (c ∷ ds) == 11) c ds ds h) refl

not_below : (a b : ℕ) → b ≤ a → ltb a b ≡ false
not_below a b le = ground arith

pub national-last :
    (is_digit : ℕ → Bool) (raw n : Text)
    → raw ≢ []
    → 10 ≤ length (keep_digits is_digit raw)
    → drop (length (keep_digits is_digit raw) - 10) (keep_digits is_digit raw) ≡ n
    → national is_digit (some raw) ≡ some n
unfolding national
national-last is_digit [] n g l e = absurd (g refl)
national-last is_digit (c ∷ raw) n g l e =
    rw (not_below (length (keep_digits is_digit (c ∷ raw))) 10 l) (ap some e)

pub not_blank_digits :
    (b : Bool) (ds n : Text)
    → (if b then invalid empty else normalise_digits ds) ≡ msisdn n
    → (b ≡ false) × (normalise_digits ds ≡ msisdn n)
not_blank_digits true ds n h = absurd (ground arith)
not_blank_digits false ds n h = (refl, h)

pub normalise_digits-stripped :
    (ds n : Text)
    → normalise_digits ds ≡ msisdn n
    → (stripped ds ≡ n) × (length n ≡ 10) × (is_mobile n ≡ true)
unfolding normalise_digits
normalise_digits-stripped [] n h = absurd (ground arith)
normalise_digits-stripped (c ∷ ds) n h = checked-msisdn (stripped (c ∷ ds)) n h
