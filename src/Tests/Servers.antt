-- ===== src/Tests/Servers.antt =====
-- A line of the match server's log.
use video_match.Base.{◌≡◌, refl, true, [], ◌∷◌, some, if◌then◌else◌, ◌&&◌, leb, bytes_of, arith}
use video_match.Log.{log_info, lwarn, linfo, LogState, target, log_macro, log_line, level_number}
use video_match.Log.Naming.{function_text}
use video_match.Log.Printing.{least, log_macro-leb}

abbrev opened : LogState
opened = record { level = linfo; path = bytes_of "time.txt" }

log_macro-leb_example :
    log_macro log_info opened
      (λ path. true)
      (bytes_of "noon")
      lwarn
      (function_text (bytes_of "int") (bytes_of "VideoMatch::VideoDB::Load") (bytes_of ")"))
      (bytes_of "ready")
    ≡ some (
        if leb (least log_info) (level_number lwarn)
          && leb (level_number linfo) (level_number lwarn)
        then (
          target opened (λ path. true),
          log_line
              (bytes_of "noon")
              lwarn
              (bytes_of "VideoMatch::VideoDB::Load")
              (bytes_of "ready"),
        )
          ∷ []
        else [])
log_macro-leb_example =
    log_macro-leb (bytes_of "int") (bytes_of "VideoMatch::VideoDB::Load") (bytes_of ")") log_info
      opened (λ path. true) (bytes_of "noon") lwarn (bytes_of "ready") refl refl refl (omega arith)
