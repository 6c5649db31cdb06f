-- ===== src/CommandLine.antt =====
-- The loops of the three `main` functions over the options: server/main.cpp, browse_server/main.cpp
-- and client/main.cpp. What `getopt_long` gives is a list, each result with the `optarg` of that
-- moment; it is the letter of an option, or `?` where the option is unknown or has no argument.
use video_match.Base.{
  Bool-cases, inl, inr, ◌∙◌, refl, ◌≡◌, ℕ, Bool, true, false, List, [], ◌∷◌, Option, none, some,
  ◌==◌, any_of, Name, if◌then◌else◌,
}

abbrev pub Found : Type 0
Found = ℕ × Name

-- `while ((opt = getopt_long(...)) != -1)`, with a body that stores the option or returns.
module _ {ℓ} {O : Type ℓ} (store : O → Found → Option O) where
  unfoldable pub read_options : O → List Found → Option O
  read_options o [] = some o
  read_options o (f ∷ found) = elim (store o f) [ none ↦ none | some o' ↦ read_options o' found ]

-- The argument of the last option with this letter, or else the default.
module _ {ℓ} {A : Type ℓ} (of_arg : Name → A) (letter : ℕ) where
  unfoldable pub last_arg : A → List Found → A
  last_arg kept [] = kept
  last_arg kept ((c, arg) ∷ found) = last_arg (if c == letter then of_arg arg else kept) found

-- An option that has none of these letters.
unfoldable pub unknown_option : List ℕ → List Found → Bool
unknown_option letters =
    any_of (λ f. elim (any_of (λ c. f.0 == c) letters) [ true ↦ false | false ↦ true ])

-- Whether an option is there.
unfoldable pub given : ℕ → List Found → Bool
given letter = any_of (λ f. f.0 == letter)

pub last_arg_absent {ℓ} :
    {A : Type ℓ} (of_arg : Name → A) (letter : ℕ) (kept : A) (found : List Found)
    → given letter found ≡ false
    → last_arg of_arg letter kept found ≡ kept
unfolding last_arg given
last_arg_absent of_arg letter kept [] h = refl
last_arg_absent of_arg letter kept ((c, arg) ∷ found) h = elim (Bool-cases (c == letter)) [
  | inl same ↦ let e = rw same at h in cc e
  | inr other ↦ let h' = rw other at h in rw other (last_arg_absent of_arg letter kept found h')
]

-- A pointer to the argument, null to begin with.
pub last_arg-given :
    (letter : ℕ) (o : Option Name) (kept : Name) (found : List Found)
    → last_arg some letter o found
      ≡ (if given letter found then some (last_arg (λ arg. arg) letter kept found) else o)
unfolding last_arg given
last_arg-given letter o kept [] = refl
last_arg-given letter o kept ((c, arg) ∷ found) = elim (Bool-cases (c == letter)) [
  | inl same ↦ rw same (
      last_arg-given letter (some arg) arg found ∙ elim (Bool-cases (given letter found)) [
        | inl more ↦ rw more refl
        | inr last ↦ rw last (rw (last_arg_absent (λ a. a) letter arg found last) refl)
      ])
  | inr other ↦ rw other (last_arg-given letter o kept found)
]
