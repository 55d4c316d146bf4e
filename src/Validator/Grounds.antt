-- ===== src/Validator/Grounds.antt =====
-- What a figure and an advice of application rest on.
use uaagro_voice_agent.Prelude.{
  ℕ, ◌≤◌, ◌≡◌, ◌≢◌, ◌↔◌, ◌⊎◌, inl, inr, refl, Bool, true, false, ◌&&◌, ◌||◌, List, [], ◌∷◌, map,
  all, string_eq, arith,
}
use uaagro_voice_agent.Validator.Figures.{fold}
use uaagro_voice_agent.Validator.Readings.{Reads, over, skip, figure}
use uaagro_voice_agent.Validator.Results.{
  Value, Entries, nothing, text, boolean, number, other, sequence, mapping, get, is_true,
  is_recommendation_tool, recommends, has_recommendation, numbers_in_results,
}
use uaagro_voice_agent.Validator.Check.{codes_eq, is_among, always_allowed, is_supported}
use uaagro_voice_agent.Validator.Kept.{fold-digit}

abbrev pub AnyOf : {A : Type 0} → (A → Type 0) → List A → Type 0
AnyOf P [] = ⊥
AnyOf P (x ∷ xs) = P x ⊎ AnyOf P xs

abbrev pub AllOf : {A : Type 0} → (A → Type 0) → List A → Type 0
AllOf P [] = Unit
AllOf P (x ∷ xs) = P x × AllOf P xs

-- A number from 1 to 10.
abbrev pub IsSmall : List ℕ → Type 0
IsSmall n = ((d : ℕ) × (49 ≤ d) × (d ≤ 57) × (n ≡ d ∷ [])) ⊎ (n ≡ 49 ∷ 48 ∷ [])

-- A number that may be spoken: a small one, or one of the results.
abbrev pub IsGrounded : List Entries → List ℕ → Type 0
IsGrounded results n = IsSmall (fold n) ⊎ AnyOf (λ m. fold n ≡ fold m) (numbers_in_results results)

-- A result of a tool for recommendations that went well and has some, or a dose.
abbrev pub IsAdvice : Entries → Type 0
IsAdvice result =
    ((get "tool" result ≡ text "recommend_for_crop") ⊎ (get "tool" result ≡ text "calculate_dose"))
    × (is_true (get "ok" result) ≡ true)
    × (content : Entries) × (get "data" result ≡ mapping content)
    × ((is_true (get "recommendations" content) ≡ true) ⊎ (is_true (get "dose" content) ≡ true))

codes_eq_iff : (xs ys : List ℕ) → (codes_eq xs ys ≡ true) ↔ (xs ≡ ys)
codes_eq_iff [] [] = (λ h. refl, λ h. refl)
codes_eq_iff [] (y ∷ ys) = (λ h. absurd (ground (arith, h)), λ h. absurd (ground (arith, h)))
codes_eq_iff (x ∷ xs) [] = (λ h. absurd (ground (arith, h)), λ h. absurd (ground (arith, h)))
codes_eq_iff (x ∷ xs) (y ∷ ys) = ground (arith, codes_eq_iff xs ys)

among_iff :
    (n : List ℕ) (ms : List (List ℕ))
    → (is_among n (map fold ms) ≡ true) ↔ AnyOf (λ m. n ≡ fold m) ms
among_iff n [] = (λ h. absurd (ground (arith, h)), λ h. absurd h)
among_iff n (m ∷ ms) = ground (arith, codes_eq_iff n (fold m), among_iff n ms)

IsSmall-iff : (n : List ℕ) → (is_among n always_allowed ≡ true) ↔ IsSmall n
IsSmall-iff [] = (
  λ h. absurd (ground (arith, h)),
  λ small. elim small [
    | inl (d, low, high, e) ↦ absurd (ground (arith, e))
    | inr e ↦ absurd (ground (arith, e))
  ],
)
IsSmall-iff (c ∷ []) = (
  λ h. inl (c, ground (arith, h), ground (arith, h), refl),
  λ small. elim small [
    | inl (d, low, high, e) ↦ ground (arith, low, high, e)
    | inr e ↦ absurd (ground (arith, e))
  ],
)
IsSmall-iff (c ∷ d ∷ []) = (
  λ h. inr (ground (arith, h)),
  λ small. elim small [
    | inl (b, low, high, e) ↦ absurd (ground (arith, e))
    | inr e ↦ ground (arith, e)
  ],
)
IsSmall-iff (c ∷ d ∷ e ∷ n) = (
  λ h. absurd (ground (arith, h)),
  λ small. elim small [
    | inl (b, low, high, same) ↦ absurd (ground (arith, same))
    | inr same ↦ absurd (ground (arith, same))
  ],
)

supported_iff :
    (results : List Entries) (n : List ℕ)
    → fold n ≢ []
    → (is_supported (map fold (numbers_in_results results)) (fold n) ≡ true) ↔ IsGrounded results n
unfolding is_supported
supported_iff results n kept = ground (
  arith,
  kept,
  codes_eq_iff (fold n) [],
  IsSmall-iff (fold n),
  among_iff (fold n) (numbers_in_results results),
)

pub all_supported_iff :
    (results : List Entries) {cs : List ℕ} {ns : List (List ℕ)}
    → Reads cs ns
    → (all (is_supported (map fold (numbers_in_results results))) (map fold ns) ≡ true)
      ↔ AllOf (IsGrounded results) ns
all_supported_iff results over = (λ h. tt, λ h. refl)
all_supported_iff results (skip c h more) = all_supported_iff results more
all_supported_iff results (figure c run rest h hs stop more) =
    ground
      (arith, supported_iff results (c ∷ run) (fold-digit c run h), all_supported_iff results more)

tool_iff :
    (v : Value)
    → (is_recommendation_tool v ≡ true)
      ↔ ((v ≡ text "recommend_for_crop") ⊎ (v ≡ text "calculate_dose"))
unfolding is_recommendation_tool
tool_iff nothing = (λ h. absurd (ground (arith, h)), λ k. absurd (ground (arith, k)))
tool_iff (text s) =
    ground (arith, string_eq.beq_iff s "recommend_for_crop", string_eq.beq_iff s "calculate_dose")
tool_iff (boolean b) = (λ h. absurd (ground (arith, h)), λ k. absurd (ground (arith, k)))
tool_iff (number shown b) = (λ h. absurd (ground (arith, h)), λ k. absurd (ground (arith, k)))
tool_iff (other shown b) = (λ h. absurd (ground (arith, h)), λ k. absurd (ground (arith, k)))
tool_iff (sequence items) = (λ h. absurd (ground (arith, h)), λ k. absurd (ground (arith, k)))
tool_iff (mapping content) = (λ h. absurd (ground (arith, h)), λ k. absurd (ground (arith, k)))

recommends_iff :
    (v : Value)
    → (recommends v ≡ true) ↔ (
        (content : Entries) × (v ≡ mapping content)
        × ((is_true (get "recommendations" content) ≡ true)
            ⊎ (is_true (get "dose" content) ≡ true)))
unfolding recommends
recommends_iff nothing =
    (λ h. absurd (ground (arith, h)), λ (content, e, has). absurd (ground (arith, e)))
recommends_iff (text s) =
    (λ h. absurd (ground (arith, h)), λ (content, e, has). absurd (ground (arith, e)))
recommends_iff (boolean b) =
    (λ h. absurd (ground (arith, h)), λ (content, e, has). absurd (ground (arith, e)))
recommends_iff (number shown b) =
    (λ h. absurd (ground (arith, h)), λ (content, e, has). absurd (ground (arith, e)))
recommends_iff (other shown b) =
    (λ h. absurd (ground (arith, h)), λ (content, e, has). absurd (ground (arith, e)))
recommends_iff (sequence items) =
    (λ h. absurd (ground (arith, h)), λ (content, e, has). absurd (ground (arith, e)))
recommends_iff (mapping content) =
    (λ h. (content, refl, ground (arith, h)), λ (other_content, e, has). ground (arith, e, has))

or_parts : (a b : Bool) → (a || b) ≡ true → (a ≡ true) ⊎ (b ≡ true)
or_parts true b h = inl refl
or_parts false b h = inr h

IsAdvice-iff :
    (result : Entries)
    → ((is_recommendation_tool (get "tool" result)
          && is_true (get "ok" result)
          && recommends (get "data" result))
        ≡ true)
      ↔ IsAdvice result
IsAdvice-iff result =
    let tool = tool_iff (get "tool" result) in
    let advice = recommends_iff (get "data" result) in
    (
      λ h.
          let (content, is_mapping, has) = advice.0 (ground (arith, h)) in
          (tool.0 (ground (arith, h)), ground (arith, h), content, is_mapping, has),
      λ (by_tool, went_well, content, is_mapping, has).
          ground (arith, tool.1 by_tool, went_well, advice.1 (content, is_mapping, has)),
    )

pub has_recommendation_iff :
    (results : List Entries) → (has_recommendation results ≡ true) ↔ AnyOf IsAdvice results
unfolding has_recommendation
has_recommendation_iff [] = (λ h. absurd (ground (arith, h)), λ h. absurd h)
has_recommendation_iff (result ∷ results) =
    let first = IsAdvice-iff result in
    let rest = has_recommendation_iff results in
    (
      λ h. elim (or_parts _ (has_recommendation results) h) [
        | inl here ↦ inl (first.0 here)
        | inr later ↦ inr (rest.0 later)
      ],
      λ advised. elim advised [
        | inl here ↦ ground (arith, first.1 here)
        | inr later ↦ ground (arith, rest.1 later)
      ],
    )
