-- ===== src/Handler/Restart.antt =====
-- The match server is stopped after a save and started again.
use video_match.Base.{
  ℕ, ◌^◌, ◌<◌, ◌≡◌, refl, true, false, List, [], ◌∷◌, ◌++◌, Option, none, some, ◌==◌, if◌then◌else◌,
  any_of, length, Name, bytes_of, ℤ, pos, arith, ap, ◌∙◌, sym,
}
use video_match.CommandLine.{Found, read_options, last_arg, unknown_option}
use video_match.DbFile.Load.{load}
use video_match.DbFile.Restored.{unfit}
use video_match.DbFile.RoundTrip.{written_over, load-save}
use video_match.DbFile.Save.{save}
use video_match.DbFile.Saving.{long_name}
use video_match.DbFile.Written.{joined}
use video_match.DbFile.{ByteList}
use video_match.Handler.Startup.{
  ServerOptions, server_defaults, level_of, store_server_option, to_port, Serving, serving,
  start_server, main,
}
use video_match.Log.{LogLevel, log_init}
use video_match.Text.{atoi, printed}
use video_match.VideoDb.Refinement.{empty_db}
use video_match.VideoDb.Valid.{IsValid, view}
use video_match.VideoDb.{VideoDb, Orders}

abbrev pub server_letters : List ℕ
server_letters = b'd' ∷ b'p' ∷ b'l' ∷ b'L' ∷ []

-- The last level that is one of the three names.
pub last_level : LogLevel → List Found → LogLevel
last_level level [] = level
last_level level ((c, arg) ∷ found) =
    last_level (if c == b'L' then level_of arg level else level) found

pub options_from : ServerOptions → List Found → ServerOptions
options_from o found = record {
  dir = last_arg (λ arg. arg) b'd' o.dir found;
  port = last_arg atoi b'p' o.port found;
  log_file = last_arg (λ arg. arg) b'l' o.log_file found;
  log_level = last_level o.log_level found;
}

read_server_options :
    (o : ServerOptions) (found : List Found)
    → read_options store_server_option o found
      ≡ (if unknown_option server_letters found then none else some (options_from o found))
unfolding read_options unknown_option options_from last_arg last_level store_server_option
read_server_options o [] = refl
read_server_options o ((c, arg) ∷ found) = ground (
  arith,
  read_server_options (record o { dir = arg }) found,
  read_server_options (record o { port = atoi arg }) found,
  read_server_options (record o { log_file = arg }) found,
  read_server_options (record o { log_level = level_of arg o.log_level }) found,
)

-- The path of the file that `Load` opens.
abbrev pub db_file : Name → Name
db_file dir = printed 255 (dir ++ bytes_of "/videomatch_db.bin")

-- The options that the server has in the end.
abbrev pub options_of : ℤ → List Found → ServerOptions
options_of now found = options_from (server_defaults now) found

-- The server has the content in a well-formed database, and the settings of the last option of
-- each kind.
pub record Restarts (o : ServerOptions) (v : VideoDb) (s : Serving) : Type 0 where
  pub content : view s.db ≡ view v
  pub valid : IsValid s.db
  pub port : s.port ≡ to_port o.port
  pub log : s.log ≡ log_init (some o.log_file) o.log_level

serving_loaded :
    (orders : Orders) (files : Name → Option ByteList) (o : ServerOptions) (db : VideoDb)
    → load orders (files (db_file o.dir)) empty_db ≡ some (pos 0, db)
    → start_server orders files o
      ≡ serving (record {
        log = log_init (some o.log_file) o.log_level;
        db_path = o.dir;
        db = db;
        port = to_port o.port;
        threads = 4;
      })
unfolding start_server
serving_loaded orders files o db loaded = rw (loaded, start_server) refl

main-known :
    (orders : Orders) (files : Name → Option ByteList) (now : ℤ) (found : List Found)
    → unknown_option server_letters found ≡ false
    → main orders files now found ≡ start_server orders files (options_of now found)
unfolding main
main-known orders files now found known =
    let e : read_options store_server_option (server_defaults now) found
        ≡ some (options_of now found) =
      read_server_options (server_defaults now) found ∙ rw known refl in
    rw (e, main) refl

blocks_of :
    {r : Option (ℤ × List ByteList × VideoDb)} {a b : List ByteList} {v : VideoDb}
    → r ≡ some (pos 0, a, v)
    → r ≡ some (pos 0, b, v)
    → a ≡ b
blocks_of h k = cc

-- A match server with a well-formed database that `Load` can restore saves it, and each write is
-- complete. Started with options that are all known, on the directory whose file was written, it
-- comes up with the same content in a database that is well formed again, on the port of the last
-- such option, taken modulo 2 ^ 16, and with the log file and the last valid log level that the
-- options give.
pub main-Restarts :
    (orders other : Orders) (v : VideoDb) (old : ByteList)
    → IsValid v
    → length v.db < 2 ^ 31
    → any_of long_name v.db ≡ false
    → any_of (unfit v.heap) v.db ≡ false
    → (blocks : List ByteList) → save orders true v ≡ some (pos 0, blocks, v)
    → (files : Name → Option ByteList) (now : ℤ) (found : List Found)
    → unknown_option server_letters found ≡ false
    → files (db_file (options_of now found).dir) ≡ some (written_over (joined blocks) old)
    → (s : Serving) × (main other files now found ≡ serving s) × Restarts (options_of now found) v s
main-Restarts orders other v old valid small short ok blocks told files now found known written =
    let (made, db, saved, runs, fit, same) = load-save orders other v old valid small short ok in
    let same_blocks : made ≡ blocks = blocks_of saved told in
    let read : load other (files (db_file (options_of now found).dir)) empty_db ≡ some (pos 0, db) =
      ap (λ f. load other f empty_db) written
      ∙ ap (λ b. load other (some (written_over (joined b) old)) empty_db) (sym same_blocks)
      ∙ runs in
    let o = options_of now found in
    (
      record {
        log = log_init (some o.log_file) o.log_level;
        db_path = o.dir;
        db = db;
        port = to_port o.port;
        threads = 4;
      },
      main-known other files now found known ∙ serving_loaded other files o db read,
      record { content = same; valid = fit; port = refl; log = refl },
    )
