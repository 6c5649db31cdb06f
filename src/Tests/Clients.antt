-- ===== src/Tests/Clients.antt =====
-- A stand-in for the JSON library that has its laws, and a request of the client.
use video_match.Base.{
  List, replicate, ℕ, ◌+◌, ◌≡◌, refl, Bool, true, false, [], ◌∷◌, ◌++◌, Option, none, some,
  if◌then◌else◌, ◌==◌, Name, bytes_eq, bytes_of, ℤ, pos, negsuc, arith,
}
use video_match.Client.Laws.{JsonLaws, Rereads}
use video_match.Client.Sent.{sent_item, process-add_request}
use video_match.Client.{add_request, put_frames}
use video_match.Requests.Content.{Answers}
use video_match.Requests.Library.{Json}
use video_match.Requests.{process}
use video_match.Text.{c_str}
use video_match.Tests.{plain, plain_orders, sample_db, sample_db-IsValid}
use video_match.Cache.Files.{DirEntry}
use video_match.Client.EndToEnd.{frames_of, posted_text, main-Answers}
use video_match.Client.Main.{main}
use video_match.Client.Running.{refused, is_add, asked}
use video_match.Text.{same_text}
use video_match.Client.{hash_files}
use video_match.CommandLine.{Found, last_arg, given, unknown_option}
use video_match.Picture.{get_hash_code}
use video_match.Tests.Grids.{whole, grids, least_above}
use video_match.Picture.Library.{count_from}
use video_match.Tests.Scaled.{scaled}

-- Objects and arrays are chains of assignments.
data Tree : Type 0 where
  leaf : Tree
  number : ℤ → Tree
  text : Name → Tree
  member : Name → Tree → Tree → Tree
  element : Tree → Tree → Tree

abbrev child : Tree → Name → Tree
child leaf key = leaf
child (number n) key = leaf
child (text t) key = leaf
child (member k x rest) key = let more = child rest key in if bytes_eq k key then x else more
child (element a x) key = leaf

abbrev bound : Tree → Name → Bool
bound leaf key = false
bound (number n) key = false
bound (text t) key = false
bound (member k x rest) key = let more = bound rest key in if bytes_eq k key then true else more
bound (element a x) key = false

abbrev elements : Tree → ℕ
elements leaf = 0
elements (number n) = 0
elements (text t) = 0
elements (member k x rest) = 0
elements (element a x) = elements a + 1

abbrev element_at : Tree → ℕ → Tree
element_at leaf i = leaf
element_at (number n) i = leaf
element_at (text t) i = leaf
element_at (member k x rest) i = leaf
element_at (element a x) i = let more = element_at a i in if i == elements a then x else more

abbrev is_text : Tree → Bool
is_text leaf = false
is_text (number n) = false
is_text (text t) = true
is_text (member k x rest) = false
is_text (element a x) = false

abbrev is_list : Tree → Bool
is_list leaf = false
is_list (number n) = false
is_list (text t) = false
is_list (member k x rest) = false
is_list (element a x) = true

abbrev letters : Tree → Name
letters leaf = []
letters (number n) = []
letters (text t) = t
letters (member k x rest) = []
letters (element a x) = []

abbrev natural : ℤ → Option ℕ
natural (pos n) = some n
natural (negsuc n) = none

abbrev word : Tree → Option ℕ
word leaf = none
word (number n) = natural n
word (text t) = none
word (member k x rest) = none
word (element a x) = none

abbrev bird_tree : Tree
bird_tree =
    let started =
      member (bytes_of "name") (text (bytes_of "bird"))
        (member (bytes_of "type") (text (bytes_of "add")) leaf) in
    let one = element leaf (number (pos 7)) in
    member (bytes_of "frames") (element one (number (pos 9)))
      (member (bytes_of "frames") one started)

abbrev tree_json : Tree → Json scaled
tree_json reread = record {
  Value = Tree;
  null = leaf;
  from_int = number;
  from_uint64 = λ n. number (pos n);
  from_string = text;
  from_double = λ x. number (pos x);
  get = child;
  set = λ v key x. member key x v;
  set_at = λ v i x. element v x;
  at = element_at;
  size = elements;
  is_member = λ v key. some (bound v key);
  is_string = is_text;
  is_array = is_list;
  as_string = letters;
  as_uint64 = word;
  parse = λ request. some reread;
  write = letters;
  line = λ key name score. key ++ name;
}

some_if : (b c : Bool) → some (if b then true else c) ≡ (if b then some true else some c)
some_if true c = refl
some_if false c = refl

tree_laws : (reread : Tree) → JsonLaws scaled (tree_json reread)
tree_laws reread = record {
  IsObject = λ v. Unit;
  null-IsObject = tt;
  set-IsObject = λ v x k o. tt;
  get-null = λ k. refl;
  get-set = λ v x j k o. refl;
  is_member-set = λ v x j k o. some_if (bytes_eq j k) (bound v k);
  IsArray = λ v. Unit;
  null-IsArray = tt;
  set_at-IsArray = λ a x o. tt;
  size-null = refl;
  size-set_at = λ a x o. refl;
  at-set_at = λ a x i o. refl;
  is_array-set_at = λ a x o. refl;
  is_string-from_string = λ s. refl;
  as_string-from_string = λ s. refl;
  as_uint64-from_uint64 = λ n lt. refl;
}

abbrev birds : Json scaled
birds = tree_json bird_tree

bird_Rereads :
    Rereads scaled birds (add_request scaled birds (bytes_of "bird") (7 ∷ 9 ∷ [])) bird_tree
unfolding add_request put_frames bytes_eq
bird_Rereads = record {
  same_member = λ k. refl;
  same_is_string = λ k. refl;
  same_string = λ k. refl;
  same_is_array = λ k. refl;
  same_size = λ k. refl;
  same_uint64 = λ k i. refl;
}

process-add_request_example :
    Answers scaled birds (some (sent_item (bytes_of "bird") (7 ∷ 9 ∷ []))) sample_db (
      process scaled birds plain plain_orders
        (c_str (letters (add_request scaled birds (bytes_of "bird") (7 ∷ 9 ∷ []))))
        sample_db)
process-add_request_example =
    process-add_request scaled birds (tree_laws bird_tree) plain plain_orders sample_db
      sample_db-IsValid (bytes_of "bird") 7 (9 ∷ []) (omega arith, (omega arith, tt)) (omega arith)
      bird_tree refl bird_Rereads

-- A directory with one picture, and the command line that adds it as "bird".
abbrev picture_file : DirEntry
picture_file = record {
  before = replicate 4 0;
  d_name = bytes_of "1.jpg";
  file = some (replicate 3 7);
}

abbrev folder : Name → List DirEntry
folder dir = picture_file ∷ []

abbrev add_bird : List Found
add_bird =
    (b'r', bytes_of "add")
    ∷ (b'n', bytes_of "bird")
    ∷ (b'd', bytes_of "frames")
    ∷ (b'a', bytes_of "localhost")
    ∷ []

abbrev checked_frames : List ℕ
checked_frames = 0xaa55_aa55_aa55_aa55 ∷ []

abbrev checked_tree : Tree
checked_tree = member (bytes_of "frames") (element leaf (number (pos 0xaa55_aa55_aa55_aa55))) (
    member (bytes_of "name") (text (bytes_of "bird"))
      (member (bytes_of "type") (text (bytes_of "add")) leaf))

abbrev pictures : Json scaled
pictures = tree_json checked_tree

checked_Rereads :
    Rereads scaled pictures
      (add_request scaled pictures (bytes_of "bird") checked_frames)
      checked_tree
unfolding add_request put_frames bytes_eq
checked_Rereads = record {
  same_member = λ k. refl;
  same_is_string = λ k. refl;
  same_string = λ k. refl;
  same_is_array = λ k. refl;
  same_size = λ k. refl;
  same_uint64 = λ k i. refl;
}

folder_frames : frames_of scaled pictures whole (grids 3) folder add_bird ≡ checked_frames
unfolding hash_files last_arg get_hash_code bytes_eq least_above count_from
folder_frames = refl

bird_accepted : refused add_bird ≡ false
unfolding unknown_option given last_arg same_text
bird_accepted = refl

bird_adds : is_add (asked add_bird).req ≡ true
unfolding last_arg same_text
bird_adds = refl

main-Answers_example :
    let sent = posted_text scaled pictures whole (grids 3) folder add_bird in
    (main scaled pictures (λ file. get_hash_code whole (grids 3) (some file)) folder add_bird
      ≡ (0, (bytes_of "localhost", sent) ∷ []))
    × Answers scaled pictures
        (some (sent_item (bytes_of "bird") checked_frames))
        sample_db
        (process scaled pictures plain plain_orders sent sample_db)
unfolding last_arg
main-Answers_example =
    main-Answers scaled pictures whole (grids 3) folder (tree_laws checked_tree) plain plain_orders
      sample_db sample_db-IsValid add_bird bird_accepted bird_adds 0xaa55_aa55_aa55_aa55 []
      folder_frames (omega arith) checked_tree refl checked_Rereads
