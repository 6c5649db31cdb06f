-- ===== src/Pages/Startup.antt =====
-- `main` of browse_server/main.cpp: its options, the list of videos and the cache.
use video_match.Base.{
  ℕ, ◌-◌, ◌*◌, ◌%◌, ◌^◌, List, [], Option, none, some, ◌==◌, if◌then◌else◌, Name, bytes_of, ℤ, pos,
  negsuc,
}
use video_match.Cache.Files.{ByteList}
use video_match.Cache.Paths.{load_paths}
use video_match.Cache.{Manager, new_manager}
use video_match.CommandLine.{Found, read_options}
use video_match.Pages.{Site}
use video_match.Text.{atoi}

pub record BrowseOptions : Type 0 where
  pub listfile : Name
  pub port : ℤ
  pub cache_size : ℕ

abbrev pub browse_defaults : BrowseOptions
browse_defaults = record {
  listfile = bytes_of "./videolist.txt";
  port = pos 8965;
  cache_size = 1024 * 1048576;
}

-- `n * 1048576ull`, for an `int`.
abbrev pub megabytes : ℤ → ℕ
megabytes (pos n) = n * 1048576 % 2 ^ 64
megabytes (negsuc n) = ((2 ^ 64 - 1) - n % 2 ^ 64) * 1048576 % 2 ^ 64

-- The body of the loop; `none` is the return after the usage text.
unfoldable pub store_browse_option : BrowseOptions → Found → Option BrowseOptions
store_browse_option o (opt, optarg) =
    if opt == b'l'
    then some (record o { listfile = optarg })
    else if opt == b'p'
    then some (record o { port = atoi optarg })
    else if opt == b'c'
    then some (record o { cache_size = megabytes (atoi optarg) })
    else none

-- The return after the usage text, the return -1, or the server on its port.
pub data Opening : Type 0 where
  usage : Opening
  no_list : Opening
  browsing : ℤ → Site → Opening

-- `LoadPath` where the file of that path has been opened.
unfoldable pub with_paths : ℕ → ByteList → Manager
unfolding load_paths new_manager
with_paths cache_size bytes = record (new_manager cache_size) { raw_path = load_paths bytes [] }

unfoldable pub start_browsing : (Name → Option ByteList) → BrowseOptions → Opening
unfolding with_paths
start_browsing files o = elim (files o.listfile) [
  | none ↦ no_list
  | some bytes ↦
      browsing o.port (record { gvm = with_paths o.cache_size bytes; bytes_out_total = 0 })
]

unfoldable pub main : (Name → Option ByteList) → List Found → Opening
unfolding store_browse_option start_browsing
main files found = elim (read_options store_browse_option browse_defaults found) [
  | none ↦ usage
  | some o ↦ start_browsing files o
]
