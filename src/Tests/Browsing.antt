-- ===== src/Tests/Browsing.antt =====
-- A small browse server: two videos of five bytes each in its cache.
use video_match.Base.{
  ◌++◌, ◌≤◌, ℕ, ◌+◌, ◌<◌, ◌^◌, ◌≡◌, refl, ◌⊎◌, false, List, [], ◌∷◌, Option, none, some, Name,
  bytes_of, bytes_eq, ℤ, pos, arith, length,
}
use video_match.Cache.Chain.{Cell}
use video_match.Cache.Fetching.{SameLimits, unpacked_size}
use video_match.Cache.Files.{Frames, find_frame, read_files}
use video_match.Cache.Holds.{Holds}
use video_match.Cache.Lru.{picture_of, size_of, videos}
use video_match.Cache.Names.{place_of}
use video_match.Cache.Listed.{list_file, enter, load_paths-enter}
use video_match.Cache.Paths.{put_path, load_paths}
use video_match.Cache.Pushing.{Named-cons}
use video_match.Cache.Refinement.{Answers, Sizes, lookup-picture_of, lookup_size-size_of}
use video_match.Cache.Serving.{Fits, IsFit}
use video_match.Cache.Trimming.{fitting, check_cache_overflow-Holds}
use video_match.Cache.{Manager, Unpacked, check_cache_overflow, lookup, lookup_size}
use video_match.Connection.{HttpConnection, http_get, http_200, http_404, new_connection}
use video_match.Connection.Parsing.{parsed, try_parse_request}
use video_match.Connection.Responding.{async_write, handle_read}
use video_match.Pages.Serving.{my_handler-IsFit, handle_read-IsFit, serve, serve-IsFit, lacks_frame}
use video_match.Pages.Links.{route-link}
use video_match.Pages.{page_link, image_link, route, browse, image, Site, my_handler, path_params}
use video_match.Text.{c_str, decimal, same_text, atoi, find_from, starts}
use video_match.VideoDb.Index.{to_int}
use video_match.VideoDb.{find_name}

abbrev videos_listed : Name
videos_listed = bytes_of "/data/v1.pickle\n/data/v2.pickle\n/data/v3.pickle\n/data/v4.txt\n"

-- Every video has two pictures, of five bytes together.
abbrev two_frames : Frames
two_frames = (pos 1, bytes_of "abc") ∷ (pos 2, bytes_of "de") ∷ []

abbrev two_pictures : Unpacked
two_pictures path = some (
    record { before = 1 ∷ 2 ∷ 3 ∷ 4 ∷ []; d_name = bytes_of "1.jpg"; file = some (bytes_of "abc") }
    ∷ record { before = 1 ∷ 2 ∷ 3 ∷ 4 ∷ []; d_name = bytes_of "2.JPG"; file = some (bytes_of "de") }
    ∷ record { before = 1 ∷ 2 ∷ 3 ∷ 4 ∷ []; d_name = bytes_of "."; file = none }
    ∷ [])

abbrev v1_cell : Cell
v1_cell = record { place = 0; name = bytes_of "v1"; frames = two_frames; size = 5 }

abbrev v2_cell : Cell
v2_cell = record { place = 1; name = bytes_of "v2"; frames = two_frames; size = 5 }

abbrev two_cells : List Cell
two_cells = v2_cell ∷ v1_cell ∷ []

abbrev with_room : ℕ → Manager
with_room cache_size = record {
  heap =
      some
        (record { name = bytes_of "v1"; frames = two_frames; size = 5; prev = some 1; next = none })
      ∷ some (record {
        name = bytes_of "v2";
        frames = two_frames;
        size = 5;
        prev = none;
        next = some 0;
      })
      ∷ [];
  cache_size = cache_size;
  head = some 1;
  tail = some 0;
  loaded = (bytes_of "v2", 1) ∷ (bytes_of "v1", 0) ∷ [];
  raw_path = load_paths videos_listed [];
}

with_room-Holds : (cache_size : ℕ) → Holds (with_room cache_size) two_cells
unfolding find_name place_of bytes_eq
with_room-Holds cache_size = record {
  head_first = refl;
  tail_last = refl;
  linked = (refl, (refl, tt));
  apart = λ q. ground arith;
  named = Named-cons v2_cell (v1_cell ∷ []) (Named-cons v1_cell [] (λ n. omega arith) refl) refl;
  unique = (refl, (refl, tt));
  found = λ n. refl;
}

-- The older of the two videos has to go.
check_cache_overflow-Holds_example :
    (m' : Manager) × (check_cache_overflow (with_room 7) ≡ some m')
    × Holds m' (fitting 7 two_cells)
    × (m'.cache_size ≡ 7)
    × (m'.raw_path ≡ load_paths videos_listed [])
check_cache_overflow-Holds_example =
    check_cache_overflow-Holds (with_room 7) two_cells (with_room-Holds 7) (omega arith)

unpacked_bytes : (path : Name) → unpacked_size two_pictures path + 10 < 2 ^ 64
unfolding unpacked_size read_files same_text to_int
unpacked_bytes path = omega arith

lookup_size-size_of_example :
    Sizes
      (with_room 12)
      (lookup_size two_pictures (bytes_of "v3") (with_room 12))
      (size_of two_pictures (load_paths videos_listed []) 12 (bytes_of "v3") (videos two_cells))
lookup_size-size_of_example =
    lookup_size-size_of two_pictures (bytes_of "v3") (with_room 12) two_cells (with_room-Holds 12)
      unpacked_bytes

lookup-picture_of_example :
    Answers (with_room 12) (lookup two_pictures (bytes_of "v1") (pos 2) [] (with_room 12)) (
      picture_of two_pictures
        (load_paths videos_listed [])
        12
        (bytes_of "v1")
        (pos 2)
        []
        (videos two_cells))
lookup-picture_of_example =
    lookup-picture_of two_pictures (bytes_of "v1") (pos 2) [] (with_room 12) two_cells
      (with_room-Holds 12) unpacked_bytes

abbrev site : Site
site = record { gvm = with_room 12; bytes_out_total = 0 }

site-IsFit : IsFit site.gvm
site-IsFit = record { cells = two_cells; held = with_room-Holds 12; light = omega arith }

two_pictures-Fits : (path : Name) → Fits 12 (two_pictures path)
unfolding read_files same_text to_int atoi
two_pictures-Fits path = ((two_frames, 5), refl, omega arith)

abbrev get_picture : Name
get_picture = bytes_of "GET /image/v1/2 HTTP/1.1\r\nHost: x\r\n\r\n"

abbrev asking : HttpConnection
asking = record (new_connection 0) { path = bytes_of "/image/v1/2" }

asking_whole : lacks_frame (path_params [] (bytes_of "/image/v1/2")) ≡ false
unfolding lacks_frame path_params
asking_whole = refl

picture_in : Option (ℤ × Name × Manager) → Name
picture_in none = []
picture_in (some (code, picture, m)) = picture

picture_sent :
    picture_in (lookup two_pictures (bytes_of "v1") (pos 2) [] (with_room 12)) ≡ bytes_of "de"
unfolding picture_in lookup find_name bytes_eq find_frame
picture_sent = refl

-- A third video drives out the one used last.
picture_loaded :
    picture_in (lookup two_pictures (bytes_of "v3") (pos 1) [] (with_room 12)) ≡ bytes_of "abc"
unfolding picture_in lookup find_name bytes_eq find_frame read_files same_text to_int atoi
    load_paths
picture_loaded = refl

my_handler-IsFit_example :
    (code : ℤ) × (c' : HttpConnection) × (site' : Site) × (my_handler two_pictures asking site
      ≡ some (code, c', site'))
    × ((code ≡ http_200) ⊎ (code ≡ http_404))
    × IsFit site'.gvm
    × SameLimits site.gvm site'.gvm
my_handler-IsFit_example =
    my_handler-IsFit two_pictures site site-IsFit two_pictures-Fits (omega arith) asking
      asking_whole

serve-IsFit_example :
    (codes : List ℤ) × (site' : Site) × (serve two_pictures (asking ∷ asking ∷ []) site
      ≡ some (codes, site'))
    × (length codes ≡ 2)
    × IsFit site'.gvm
serve-IsFit_example =
    serve-IsFit two_pictures (asking ∷ asking ∷ []) site site-IsFit two_pictures-Fits (omega arith)
      (asking_whole, (asking_whole, tt))

abbrev asked : HttpConnection
asked = record (new_connection 0) {
  type = http_get;
  path = bytes_of "/image/v1/2";
  request = get_picture;
}

get_parsed : try_parse_request get_picture (new_connection 0) ≡ parsed asked
unfolding try_parse_request find_from new_connection starts
get_parsed = refl

handle_read-IsFit_example :
    (text : Name) × (c2 : HttpConnection) × (site' : Site) × (handle_read
        (my_handler two_pictures)
        false
        get_picture
        (new_connection 0)
        site
      ≡ some (async_write text, c2, site'))
    × IsFit site'.gvm
handle_read-IsFit_example =
    handle_read-IsFit two_pictures site site-IsFit two_pictures-Fits (omega arith) get_picture
      (new_connection 0) asked get_parsed asking_whole

short_link : length (bytes_of "/browse/" ++ bytes_of "v1" ++ bytes_of "/" ++ decimal (pos 12)) ≤ 31
unfolding decimal
short_link = omega arith

route-link_example :
    (route two_pictures (path_params [] (page_link (bytes_of "v1") (pos 12))) (with_room 12)
      ≡ browse two_pictures (bytes_of "v1") (pos 12) (with_room 12))
    × (route two_pictures (path_params [] (image_link (bytes_of "v1") (pos 12))) (with_room 12)
        ≡ image two_pictures (bytes_of "v1") (pos 12) (with_room 12))
route-link_example =
    route-link two_pictures (with_room 12) (bytes_of "v1") 12 refl refl (omega arith) (omega arith)
      short_link

link_written : page_link (bytes_of "v1") (pos 12) ≡ bytes_of "/browse/v1/12"
unfolding page_link decimal
link_written = refl

link_cut :
    page_link (bytes_of "v" ++ 0 ∷ bytes_of "1") (pos (2 ^ 31)) ≡ bytes_of "/browse/v/-2147483648"
unfolding page_link c_str to_int decimal
link_cut = refl

abbrev two_listed : List (Name × Name)
two_listed = (bytes_of "./data", bytes_of "v1.x") ∷ (bytes_of "/mnt", bytes_of "v2") ∷ []

load_paths-enter_example : load_paths (list_file two_listed) [] ≡ enter two_listed []
load_paths-enter_example =
    load_paths-enter two_listed []
      ((refl, refl, refl, omega arith), ((refl, refl, refl, omega arith), tt))

-- The path of a video under its name.
paths_entered :
    enter two_listed []
    ≡ (bytes_of "v1.x", bytes_of "./data/v1.x.pickle")
      ∷ (bytes_of "v2", bytes_of "/mnt/v2.pickle")
      ∷ []
unfolding put_path bytes_eq
paths_entered = refl
