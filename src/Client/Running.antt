-- ===== src/Client/Running.antt =====
-- What `main` of client/main.cpp does with a command line.
use video_match.Base.{
  ℕ, ◌≡◌, refl, Bool, true, false, Bool-cases, inl, inr, ◌&&◌, ◌||◌, not, List, [], ◌∷◌, Option,
  none, some, if◌then◌else◌, Name, bytes_of, arith, ◌∙◌,
}
use video_match.Cache.Files.{DirEntry}
use video_match.Client.Main.{
  ClientOptions, no_client_options, store_client_option, ClientCall, checked_call, read_call,
  run_call, main,
}
use video_match.CommandLine.{
  Found, read_options, last_arg, unknown_option, given, last_arg-given, last_arg_absent,
}
use video_match.Requests.Library.{Json}
use video_match.Score.Floats.{Double}
use video_match.Text.{same_text}

abbrev pub client_letters : List ℕ
client_letters = b'd' ∷ b'r' ∷ b'a' ∷ b'n' ∷ []

options_from : ClientOptions → List Found → ClientOptions
options_from o found = record {
  dir = last_arg some b'd' o.dir found;
  name = last_arg some b'n' o.name found;
  url = last_arg some b'a' o.url found;
  req = last_arg some b'r' o.req found;
}

read_client_options :
    (o : ClientOptions) (found : List Found)
    → read_options store_client_option o found
      ≡ (if unknown_option client_letters found then none else some (options_from o found))
unfolding read_options unknown_option options_from last_arg store_client_option
read_client_options o [] = refl
read_client_options o ((c, arg) ∷ found) = ground (
  arith,
  read_client_options (record o { dir = some arg }) found,
  read_client_options (record o { req = some arg }) found,
  read_client_options (record o { url = some arg }) found,
  read_client_options (record o { name = some arg }) found,
)

abbrev text_of : ℕ → List Found → Name
text_of letter found = last_arg (λ arg. arg) letter [] found

-- What the options ask for.
abbrev pub asked : List Found → ClientCall
asked found = record {
  req = text_of b'r' found;
  url = text_of b'a' found;
  dir = text_of b'd' found;
  name = text_of b'n' found;
}

abbrev pub is_add : Name → Bool
is_add req = same_text req (bytes_of "add")

-- An option that the call needs is missing.
abbrev pub incomplete : List Found → Bool
incomplete found =
    not (given b'r' found)
    || (not (given b'a' found)
        || (not (given b'd' found) || (is_add (text_of b'r' found) && not (given b'n' found))))

abbrev optional : Bool → Name → Option Name
optional there text = if there then some text else none

checked_flags :
    (gr ga gd gn : Bool) (r a d n : Name)
    → (gn ≡ false → n ≡ [])
    → checked_call (record {
      dir = optional gd d;
      name = optional gn n;
      url = optional ga a;
      req = optional gr r;
    })
      ≡ (if not gr || (not ga || (not gd || (is_add r && not gn)))
          then none
          else some (record { req = r; url = a; dir = d; name = n }))
unfolding checked_call
checked_flags false ga gd gn r a d n h = refl
checked_flags true false gd gn r a d n h = refl
checked_flags true true false gn r a d n h = refl
checked_flags true true true true r a d n h = ground arith
checked_flags true true true false r a d n h = rw (h refl) (ground arith)

checked_options :
    (found : List Found)
    → checked_call (options_from no_client_options found)
      ≡ (if incomplete found then none else some (asked found))
unfolding options_from
checked_options found = rw (last_arg-given b'r' none [] found) (
    rw (last_arg-given b'a' none [] found) (
      rw (last_arg-given b'd' none [] found) (
        rw (last_arg-given b'n' none [] found) (
          checked_flags (given b'r' found) (given b'a' found) (given b'd' found) (given b'n' found)
            _ _ _ _ (last_arg_absent (λ arg. arg) b'n' [] found)))))

-- The command lines that get the usage text.
abbrev pub refused : List Found → Bool
refused found = unknown_option client_letters found || incomplete found

read_call-refused :
    (found : List Found) → read_call found ≡ (if refused found then none else some (asked found))
unfolding read_call
read_call-refused found = elim (Bool-cases (unknown_option client_letters found)) [
  | inl unknown ↦
      let e : read_options store_client_option no_client_options found ≡ none =
        read_client_options no_client_options found ∙ rw unknown refl in
      rw (e, read_call) (rw unknown refl)
  | inr known ↦
      let e : read_options store_client_option no_client_options found
          ≡ some (options_from no_client_options found) =
        read_client_options no_client_options found ∙ rw known refl in
      rw (e, read_call) (rw known (checked_options found))
]

module _ (F : Double) (J : Json F) (get_hash_code : Name → Option ℕ)
    (scandir : Name → List DirEntry) where
  -- The program returns 1 and posts nothing where an option is unknown, where no request, address or
  -- directory is given, or where the request is to add and no name is given. In all other cases it
  -- returns 0 and posts to the address what the request makes of the name and of the hashes of the
  -- pictures in the directory; each of the four is the argument of the last such option.
  pub main-refused :
      (found : List Found)
      → main F J get_hash_code scandir found
        ≡ (if refused found then (1, []) else run_call F J get_hash_code scandir (asked found))
  unfolding main
  main-refused found = elim (Bool-cases (refused found)) [
    | inl yes_refused ↦
        let e : read_call found ≡ none = read_call-refused found ∙ rw yes_refused refl in
        rw (e, main) (rw yes_refused refl)
    | inr accepted ↦
        let e : read_call found ≡ some (asked found) = read_call-refused found ∙ rw accepted refl in
        rw (e, main) (rw accepted refl)
  ]
