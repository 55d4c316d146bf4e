-- ===== src/Tools/Allowed.antt =====
-- What a configuration's list of tools leaves of the registry.
use uaagro_voice_agent.Prelude.{
  sym, ◌∙◌, Option-cases, ap, ◌≡◌, refl, Bool, true, false, ◌||◌, Option, none, some, List, [], ◌∷◌,
  String, string_eq, str_eq, lookup, insert, lookup-insert, contains, inl, inr, if◌then◌else◌,
}
use uaagro_voice_agent.Tools.Schema.{Numbers}
use uaagro_voice_agent.Tools.Registry.{Tool, Registry, allowed, by_name, restricted}

bool_iff : (x y : Bool) → (x ≡ true → y ≡ true) → (y ≡ true → x ≡ true) → x ≡ y
bool_iff true y f g = sym (f refl)
bool_iff false true f g = g refl
bool_iff false false f g = refl

module _ (n : Numbers) where
  -- Every tool stands under its own name.
  abbrev pub IsNamed : Registry n → Type 0
  IsNamed registry =
      (name : String) (tool : Tool n) → lookup name registry ≡ some tool → tool.name ≡ name

  -- The tool of the registry where the name is chosen and there is one, and else another.
  abbrev chosen : Bool → Option (Tool n) → Option (Tool n) → Option (Tool n)
  chosen true (some tool) other = some tool
  chosen _ _ other = other

  pick_none :
      (b c : Bool) (found other : Option (Tool n))
      → (b ≡ true → found ≡ none)
      → chosen c found other ≡ chosen (b || c) found other
  pick_none false c found other h = refl
  pick_none true true found other h = refl
  pick_none true false found other h = rw (h refl) refl

  pick_some :
      (b c : Bool) (found other : Option (Tool n)) (tool : Tool n)
      → (b ≡ true → found ≡ some tool)
      → chosen c found (if b then some tool else other) ≡ chosen (b || c) found other
  pick_some false c found other tool h = refl
  pick_some true true found other tool h = rw (h refl) refl
  pick_some true false found other tool h = rw (h refl) refl

  -- The test of two names does not depend on their order.
  str_eq_comm : (a b : String) → str_eq a b ≡ str_eq b a
  str_eq_comm a b =
      bool_iff (str_eq a b) (str_eq b a)
        (λ h. (string_eq.beq_iff b a).1 (sym ((string_eq.beq_iff a b).0 h)))
        (λ h. (string_eq.beq_iff a b).1 (sym ((string_eq.beq_iff b a).0 h)))

  lookup-by_name :
      (names : List String) (registry into : Registry n) (name : String)
      → IsNamed registry
      → lookup name (by_name n (allowed n names registry) into)
        ≡ chosen (contains name names) (lookup name registry) (lookup name into)
  unfolding by_name allowed
  lookup-by_name [] registry into name h = refl
  lookup-by_name (m ∷ names) registry into name h =
      let same : str_eq name m ≡ true → lookup name registry ≡ lookup m registry =
        λ e. ap (λ k. lookup k registry) ((string_eq.beq_iff name m).0 e) in
      elim (Option-cases (lookup m registry)) [
        | inl e ↦ rw e (
            lookup-by_name names registry into name h
            ∙ pick_none (str_eq name m) (contains name names) (lookup name registry)
                (lookup name into) (λ b. same b ∙ e))
        | inr (tool, e) ↦
            let key = ap (λ k. str_eq k name) (h m tool e) ∙ str_eq_comm m name in
            let added =
              lookup-insert tool.name name tool into
              ∙ ap (λ b. if b then some tool else lookup name into) key in
            rw e (
              lookup-by_name names registry (insert tool.name tool into) name h
              ∙ (ap (chosen (contains name names) (lookup name registry)) added
                  ∙ pick_some (str_eq name m) (contains name names) (lookup name registry)
                      (lookup name into) tool (λ b. same b ∙ e)))
      ]

  chosen_if :
      (b : Bool) (found : Option (Tool n)) → chosen b found none ≡ (if b then found else none)
  chosen_if true none = refl
  chosen_if true (some tool) = refl
  chosen_if false found = refl

  -- An agent whose configuration lists its tools has those and no others: under a name, the
  -- restricted registry has the tool of the whole one if the name is listed, and none otherwise.
  -- Every tool of the registry has to stand under its own name, as register sees to.
  lookup-restricted :
      (first : String) (names : List String) (registry : Registry n) (name : String)
      → IsNamed registry
      → lookup name (restricted n (first ∷ names) registry)
        ≡ (if contains name (first ∷ names) then lookup name registry else none)
  unfolding restricted
  lookup-restricted first names registry name h =
      lookup-by_name (first ∷ names) registry [] name h
      ∙ chosen_if (contains name (first ∷ names)) (lookup name registry)
