-- ===== src/Numbers/Tables.antt =====
-- The words for numbers and the dictionaries that look them up.
use uaagro_voice_agent.Prelude.{
  all_below_lem, all_below, ℕ, suc, Bool, true, false, Option, none, some, List, [], ◌∷◌, String,
  lookup, insert, string_eq, get_or, ◌<◌, ◌&&◌, ◌≡◌, refl, ◌==◌, arith,
}

abbrev pub hindi_ones : List String
hindi_ones =
    "शून्य" ∷ "एक" ∷ "दो" ∷ "तीन" ∷ "चार" ∷ "पाँच" ∷ "छह" ∷ "सात" ∷ "आठ" ∷ "नौ" ∷ "दस" ∷ "ग्यारह"
    ∷ "बारह" ∷ "तेरह" ∷ "चौदह" ∷ "पंद्रह" ∷ "सोलह" ∷ "सत्रह" ∷ "अठारह" ∷ "उन्नीस" ∷ "बीस" ∷ "इक्कीस"
    ∷ "बाईस" ∷ "तेईस" ∷ "चौबीस" ∷ "पच्चीस" ∷ "छब्बीस" ∷ "सत्ताईस" ∷ "अट्ठाईस" ∷ "उनतीस" ∷ "तीस"
    ∷ "इकतीस" ∷ "बत्तीस" ∷ "तैंतीस" ∷ "चौंतीस" ∷ "पैंतीस" ∷ "छत्तीस" ∷ "सैंतीस" ∷ "अड़तीस"
    ∷ "उनतालीस" ∷ "चालीस" ∷ "इकतालीस" ∷ "बयालीस" ∷ "तैंतालीस" ∷ "चवालीस" ∷ "पैंतालीस" ∷ "छियालीस"
    ∷ "सैंतालीस" ∷ "अड़तालीस" ∷ "उनचास" ∷ "पचास" ∷ "इक्यावन" ∷ "बावन" ∷ "तिरेपन" ∷ "चौवन" ∷ "पचपन"
    ∷ "छप्पन" ∷ "सत्तावन" ∷ "अट्ठावन" ∷ "उनसठ" ∷ "साठ" ∷ "इकसठ" ∷ "बासठ" ∷ "तिरेसठ" ∷ "चौंसठ"
    ∷ "पैंसठ" ∷ "छियासठ" ∷ "सड़सठ" ∷ "अड़सठ" ∷ "उनहत्तर" ∷ "सत्तर" ∷ "इकहत्तर" ∷ "बहत्तर"
    ∷ "तिहत्तर" ∷ "चौहत्तर" ∷ "पचहत्तर" ∷ "छिहत्तर" ∷ "सतहत्तर" ∷ "अठहत्तर" ∷ "उन्यासी" ∷ "अस्सी"
    ∷ "इक्यासी" ∷ "बयासी" ∷ "तिरासी" ∷ "चौरासी" ∷ "पचासी" ∷ "छियासी" ∷ "सत्तासी" ∷ "अट्ठासी"
    ∷ "नवासी" ∷ "नब्बे" ∷ "इक्यानवे" ∷ "बानवे" ∷ "तिरानवे" ∷ "चौरानवे" ∷ "पचानवे" ∷ "छियानवे"
    ∷ "सत्तानवे" ∷ "अट्ठानवे" ∷ "निन्यानवे" ∷ []

abbrev pub hundred : String
hundred = "सौ"

abbrev pub thousand : String
thousand = "हज़ार"

abbrev pub lakh : String
lakh = "लाख"

abbrev pub crore : String
crore = "करोड़"

abbrev roman_variants : List (String × List String)
roman_variants =
    ("शून्य", "shunya" ∷ "zero" ∷ [])
    ∷ ("एक", "ek" ∷ "ik" ∷ "one" ∷ [])
    ∷ ("दो", "do" ∷ "two" ∷ [])
    ∷ ("तीन", "teen" ∷ "tin" ∷ "three" ∷ [])
    ∷ ("चार", "char" ∷ "chaar" ∷ "four" ∷ [])
    ∷ ("पाँच", "panch" ∷ "paanch" ∷ "five" ∷ [])
    ∷ ("छह", "chah" ∷ "chhah" ∷ "chhe" ∷ "six" ∷ [])
    ∷ ("सात", "saat" ∷ "sat" ∷ "seven" ∷ [])
    ∷ ("आठ", "aath" ∷ "ath" ∷ "eight" ∷ [])
    ∷ ("नौ", "nau" ∷ "no" ∷ "nine" ∷ [])
    ∷ ("दस", "das" ∷ "ten" ∷ [])
    ∷ ("ग्यारह", "gyarah" ∷ "eleven" ∷ [])
    ∷ ("बारह", "barah" ∷ "baarah" ∷ "twelve" ∷ [])
    ∷ ("तेरह", "terah" ∷ "thirteen" ∷ [])
    ∷ ("चौदह", "chaudah" ∷ "fourteen" ∷ [])
    ∷ ("पंद्रह", "pandrah" ∷ "fifteen" ∷ [])
    ∷ ("सोलह", "solah" ∷ "sixteen" ∷ [])
    ∷ ("सत्रह", "satrah" ∷ "seventeen" ∷ [])
    ∷ ("अठारह", "atharah" ∷ "eighteen" ∷ [])
    ∷ ("उन्नीस", "unnis" ∷ "nineteen" ∷ [])
    ∷ ("बीस", "bees" ∷ "bis" ∷ "twenty" ∷ [])
    ∷ ("पच्चीस", "pachchis" ∷ "pachees" ∷ [])
    ∷ ("तीस", "tees" ∷ "thirty" ∷ [])
    ∷ ("चालीस", "chalis" ∷ "chaalis" ∷ "forty" ∷ [])
    ∷ ("पचास", "pachas" ∷ "pachaas" ∷ "fifty" ∷ [])
    ∷ ("साठ", "sath" ∷ "saath" ∷ "sixty" ∷ [])
    ∷ ("सत्तर", "sattar" ∷ "seventy" ∷ [])
    ∷ ("अस्सी", "assi" ∷ "eighty" ∷ [])
    ∷ ("नब्बे", "nabbe" ∷ "ninety" ∷ [])
    ∷ []

unfoldable pub romanised : String → List String
romanised word = elim (lookup word roman_variants) [ none ↦ [] | some variants ↦ variants ]

abbrev pub scale_words : List (String × ℕ)
scale_words =
    (hundred, 100)
    ∷ ("hundred", 100)
    ∷ ("sau", 100)
    ∷ (thousand, 1_000)
    ∷ ("हजार", 1_000)
    ∷ ("hazar", 1_000)
    ∷ ("hajar", 1_000)
    ∷ ("thousand", 1_000)
    ∷ (lakh, 100_000)
    ∷ ("lakh", 100_000)
    ∷ ("lac", 100_000)
    ∷ (crore, 10_000_000)
    ∷ ("crore", 10_000_000)
    ∷ ("karod", 10_000_000)
    ∷ []

-- `table.setdefault(variant, value)` for each variant.
unfoldable pub set_defaults : List String → ℕ → List (String × ℕ) → List (String × ℕ)
set_defaults [] value table = table
set_defaults (variant ∷ rest) value table =
    set_defaults rest value
      (elim (lookup variant table) [ none ↦ insert variant value table | some _ ↦ table ])

unfoldable pub enumerated : ℕ → List String → List (String × ℕ) → List (String × ℕ)
unfolding set_defaults romanised
enumerated value [] table = table
enumerated value (word ∷ rest) table =
    enumerated (suc value) rest (set_defaults (romanised word) value (insert word value table))

unfoldable pub build_word_values : List (String × ℕ)
unfolding enumerated
build_word_values = insert "hundred" 100 (
    insert "twentyfive" 25
      (insert "twentytwo" 22 (insert "twentyone" 21 (enumerated 0 hindi_ones []))))

unfoldable pub ones_word : ℕ → String
ones_word v = get_or hindi_ones v ""

unfoldable pub word_value : String → Option ℕ
unfolding build_word_values
word_value token = lookup token build_word_values

unfoldable pub scale_value : String → Option ℕ
scale_value token = lookup token scale_words

abbrev agrees : Option ℕ → ℕ → Bool
agrees none v = false
agrees (some u) v = u == v

abbrev absent : Option ℕ → Bool
absent none = true
absent (some u) = false

ones_checked :
    all_below 100 (λ v. agrees (word_value (ones_word v)) v && absent (scale_value (ones_word v)))
    ≡ true
unfolding word_value ones_word scale_value
ones_checked = refl

-- The word for a number below a hundred is looked up as that number, and is no scale.
pub ones_word_lem :
    (v : ℕ) → v < 100 → (word_value (ones_word v) ≡ some v) × (scale_value (ones_word v) ≡ none)
ones_word_lem v lt =
    let h =
      all_below_lem 100
        (λ v. agrees (word_value (ones_word v)) v && absent (scale_value (ones_word v))) v
        ones_checked lt in
    (ground arith, ground arith)
