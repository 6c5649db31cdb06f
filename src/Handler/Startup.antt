-- ===== src/Handler/Startup.antt =====
-- `main` of server/main.cpp: its options, the log, the database and the port.
use video_match.Base.{
  ℕ, ◌-◌, ◌%◌, ◌^◌, List, ◌++◌, Option, none, some, ◌==◌, if◌then◌else◌, Name, bytes_of, ℤ, pos,
  negsuc,
}
use video_match.CommandLine.{Found, read_options}
use video_match.DbFile.Load.{load}
use video_match.DbFile.{ByteList}
use video_match.Log.{LogLevel, ldebug, linfo, lerror, LogState, log_init}
use video_match.Text.{same_text, atoi, decimal, printed}
use video_match.VideoDb.Refinement.{empty_db}
use video_match.VideoDb.{VideoDb, Orders}

pub record ServerOptions : Type 0 where
  pub dir : Name
  pub port : ℤ
  pub log_file : Name
  pub log_level : LogLevel

-- Before the loop; `now` is what `time(NULL)` gives.
unfoldable pub server_defaults : ℤ → ServerOptions
server_defaults now = record {
  dir = bytes_of "./";
  port = pos 8964;
  log_file = printed 255 (bytes_of "./" ++ decimal now ++ bytes_of ".log");
  log_level = linfo;
}

-- A level that is none of the three names leaves the level as it was.
unfoldable pub level_of : Name → LogLevel → LogLevel
level_of optarg level =
    if same_text optarg (bytes_of "DEBUG")
    then ldebug
    else if same_text optarg (bytes_of "INFO")
    then linfo
    else if same_text optarg (bytes_of "ERROR")
    then lerror
    else level

-- The body of the loop; `none` is the return after the usage text.
unfoldable pub store_server_option : ServerOptions → Found → Option ServerOptions
unfolding level_of
store_server_option o (opt, optarg) =
    if opt == b'd'
    then some (record o { dir = optarg })
    else if opt == b'p'
    then some (record o { port = atoi optarg })
    else if opt == b'l'
    then some (record o { log_file = optarg })
    else if opt == b'L'
    then some (record o { log_level = level_of optarg o.log_level })
    else none

-- The conversion of an `int` to `unsigned short`.
abbrev pub to_port : ℤ → ℕ
to_port (pos n) = n % 2 ^ 16
to_port (negsuc n) = (2 ^ 16 - 1) - n % 2 ^ 16

-- What the server runs with.
pub record Serving : Type 0 where
  pub log : LogState
  pub db_path : Name
  pub db : VideoDb
  pub port : ℕ
  pub threads : ℕ

-- The return after the usage text, a fault while the file of the database is read, or the server.
pub data Startup : Type 0 where
  usage : Startup
  fault : Startup
  serving : Serving → Startup

-- The files that can be opened, by their paths.
module _ (orders : Orders) (files : Name → Option ByteList) where
  unfoldable pub start_server : ServerOptions → Startup
  start_server o =
      let path = printed 255 (o.dir ++ bytes_of "/videomatch_db.bin") in
      elim (load orders (files path) empty_db) [
        | none ↦ fault
        | some (code, db) ↦ serving (record {
          log = log_init (some o.log_file) o.log_level;
          db_path = o.dir;
          db = db;
          port = to_port o.port;
          threads = 4;
        })
      ]

  unfoldable pub main : ℤ → List Found → Startup
  unfolding store_server_option start_server server_defaults
  main now found = elim (read_options store_server_option (server_defaults now) found) [
    | none ↦ usage
    | some o ↦ start_server o
  ]
