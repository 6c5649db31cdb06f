-- ===== src/Client/Main.antt =====
-- `main` of client/main.cpp: its options, the tests of them, the hashes of the pictures and the post.
use video_match.Base.{ℕ, List, [], Option, none, some, ◌==◌, if◌then◌else◌, map, Name, bytes_of}
use video_match.Cache.Files.{DirEntry}
use video_match.Client.{posted, hash_files}
use video_match.CommandLine.{Found, read_options}
use video_match.Requests.Library.{Json}
use video_match.Score.Floats.{Double}
use video_match.Text.{same_text}

-- `none` is a null pointer.
pub record ClientOptions : Type 0 where
  pub dir : Option Name
  pub name : Option Name
  pub url : Option Name
  pub req : Option Name

abbrev pub no_client_options : ClientOptions
no_client_options = record { dir = none; name = none; url = none; req = none }

-- The body of the loop; `none` is the return after the usage text.
unfoldable pub store_client_option : ClientOptions → Found → Option ClientOptions
store_client_option o (opt, optarg) =
    if opt == b'd'
    then some (record o { dir = some optarg })
    else if opt == b'r'
    then some (record o { req = some optarg })
    else if opt == b'a'
    then some (record o { url = some optarg })
    else if opt == b'n'
    then some (record o { name = some optarg })
    else none

-- What `main` needs to go on: the request, the address, the directory, and the name, which is empty
-- where a query has none.
pub record ClientCall : Type 0 where
  pub req : Name
  pub url : Name
  pub dir : Name
  pub name : Name

named_call : Name → Name → Name → Option Name → Option ClientCall
named_call req url dir (some name) = some (record { req = req; url = url; dir = dir; name = name })
named_call req url dir none =
    if same_text req (bytes_of "add")
    then none
    else some (record { req = req; url = url; dir = dir; name = [] })

located_call : Name → Option Name → Option Name → Option Name → Option ClientCall
unfolding named_call
located_call req none dir name = none
located_call req (some url) none name = none
located_call req (some url) (some dir) name = named_call req url dir name

call_of : Option Name → ClientOptions → Option ClientCall
unfolding located_call
call_of none o = none
call_of (some req) o = located_call req o.url o.dir o.name

-- The tests after the loop; `none` is the return after the usage text.
unfoldable pub checked_call : ClientOptions → Option ClientCall
unfolding call_of
checked_call o = call_of o.req o

-- `main` up to where the requester is made.
unfoldable pub read_call : List Found → Option ClientCall
unfolding store_client_option checked_call
read_call found = elim (read_options store_client_option no_client_options found) [
  | none ↦ none
  | some o ↦ checked_call o
]

-- The exit code, and each text that is posted with the address that it goes to.
abbrev pub Ran : Type 0
Ran = ℕ × List (Name × Name)

module _ (F : Double) (J : Json F) (get_hash_code : Name → Option ℕ)
    (scandir : Name → List DirEntry) where
  unfoldable pub run_call : ClientCall → Ran
  unfolding hash_files posted
  run_call c =
      let frames = hash_files get_hash_code c.dir (scandir c.dir) in
      (0, map (λ text. (c.url, text)) (posted F J c.req c.name frames))

  unfoldable pub main : List Found → Ran
  unfolding read_call run_call
  main found = elim (read_call found) [ none ↦ (1, []) | some c ↦ run_call c ]
