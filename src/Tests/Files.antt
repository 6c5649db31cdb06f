-- ===== src/Tests/Files.antt =====
-- The sample database saved and loaded again, over an older file of three bytes.
use video_match.Base.{
  bytes_of, refl, ◌≡◌, refl, false, true, List, [], ◌∷◌, some, any_of, pos, arith,
}
use video_match.DbFile.{ByteList}
use video_match.DbFile.Load.{load}
use video_match.DbFile.Restored.{unfit}
use video_match.DbFile.RoundTrip.{written_over, load-save}
use video_match.DbFile.Save.{save}
use video_match.DbFile.Saving.{file_of, long_name, save-file_of}
use video_match.DbFile.Written.{joined, too_long}
use video_match.CommandLine.{Found, unknown_option}
use video_match.Handler.Restart.{Restarts, options_of, server_letters, main-Restarts}
use video_match.Handler.Startup.{Serving, serving, main}
use video_match.Tests.{plain_orders, sample_db, sample_db-IsValid}
use video_match.VideoDb.Adding.{after_add, made}
use video_match.VideoDb.Refinement.{empty_db}
use video_match.VideoDb.Valid.{IsValid, view}
use video_match.VideoDb.{VideoDb}

no_long_names : any_of long_name sample_db.db ≡ false
unfolding after_add
no_long_names = refl

all_fit : any_of (unfit sample_db.heap) sample_db.db ≡ false
unfolding after_add made
all_fit = refl

save-file_of_example :
    (blocks : List ByteList) × (save plain_orders true sample_db ≡ some (pos 0, blocks, sample_db))
    × (joined blocks ≡ file_of plain_orders sample_db)
    × (any_of too_long blocks ≡ false)
save-file_of_example = save-file_of plain_orders sample_db sample_db-IsValid no_long_names

load-save_example :
    (blocks : List ByteList) × (v' : VideoDb) × (save plain_orders true sample_db
      ≡ some (pos 0, blocks, sample_db))
    × (load plain_orders (some (written_over (joined blocks) (1 ∷ 2 ∷ 3 ∷ []))) empty_db
        ≡ some (pos 0, v'))
    × IsValid v'
    × (view v' ≡ view sample_db)
load-save_example =
    load-save plain_orders plain_orders sample_db (1 ∷ 2 ∷ 3 ∷ []) sample_db-IsValid
      (unfold after_add in omega arith) no_long_names all_fit

-- What the writes of `Save` leave behind over an older file.
sample_save :
    (blocks : List ByteList) × (save plain_orders true sample_db ≡ some (pos 0, blocks, sample_db))
    × (joined blocks ≡ file_of plain_orders sample_db)
    × (any_of too_long blocks ≡ false)
sample_save = save-file_of plain_orders sample_db sample_db-IsValid no_long_names

abbrev sample_file : ByteList
sample_file = written_over (joined (sample_save.0)) (1 ∷ 2 ∷ 3 ∷ [])

abbrev on_port : List Found
on_port = (b'p', bytes_of "70000") ∷ []

known_options : unknown_option server_letters on_port ≡ false
unfolding unknown_option
known_options = refl

-- Every path leads to the file that was saved.
main-Restarts_example :
    (s : Serving) × (main plain_orders (λ path. some sample_file) (pos 7) on_port ≡ serving s)
    × Restarts (options_of (pos 7) on_port) sample_db s
main-Restarts_example =
    main-Restarts plain_orders plain_orders sample_db (1 ∷ 2 ∷ 3 ∷ []) sample_db-IsValid
      (unfold after_add in omega arith) no_long_names all_fit sample_save.0 sample_save.1
      (λ path. some sample_file) (pos 7) on_port known_options refl
