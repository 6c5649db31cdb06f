-- ===== src/Handler.antt =====
-- `my_handler` of server/main.cpp: which request of the HTTP server goes where. The result `none` is
-- a fault of the database.
pub mod Routing
pub mod Startup
pub mod Restart
pub mod Default
use video_match.Base.{
  ℕ, ◌+◌, Bool, true, false, ◌&&◌, ◌||◌, not, List, [], ◌∷◌, Option, none, some, if◌then◌else◌,
  length, drop, ltb, leb, Name, bytes_of, bytes_eq, ℤ, ◌==◌,
}
use video_match.Requests.{info, save_db, query_key, process}
use video_match.Requests.Library.{Json}
use video_match.Text.{to_lower}
use video_match.Score.Floats.{Double}
use video_match.VideoDb.Index.{◌>>=◌}
use video_match.VideoDb.{VideoDb, HashOrder, Orders}

pub data Method : Type 0 where
  http_get : Method
  http_post : Method
  http_head : Method
  http_put : Method
  http_invalid : Method

pub record Request : Type 0 where
  pub type : Method
  pub path : Name
  pub in_threadpool : Bool
  pub postdata : Name

-- `exit(0)`, `HTTP_SWITCH_THREAD`, an exception, or `HTTP_200` with the body.
pub data Outcome : Type 0 where
  exited : Outcome
  switch_thread : Outcome
  thrown : Outcome
  answered : Name → Outcome

-- `strncasecmp(base, match, match.size()) == 0`
unfoldable pub same_start : Name → Name → Bool
same_start base [] = true
same_start [] (m ∷ match) = false
same_start (b ∷ base) (m ∷ match) = to_lower b == to_lower m && same_start base match

unfoldable pub prefixeq : Name → Name → Bool
unfolding same_start
prefixeq base match = ltb (length match) (length base) && same_start base match

abbrev pub help : Name
help = bytes_of "Command:\r\nGET /exit\r\nGET /info\r\nGET /save\r\nGET /querykey/$key\r\n"

abbrev pub body_of : Option Name → Outcome
body_of none = thrown
body_of (some body) = answered body

module _ (F : Double) (J : Json F) (order : HashOrder ℕ) (orders : Orders) (time_ms : ℤ)
    (opened : Bool) where
  -- The requests that run in the thread pool.
  unfoldable pub pooled_get : Name → VideoDb → Option (Outcome × VideoDb)
  unfolding prefixeq save_db query_key
  pooled_get path db =
      let plain = bytes_of "/querykeyplain/" in
      let keyed = bytes_of "/querykey/" in
      if bytes_eq path (bytes_of "/save")
      then (save_db F J order orders opened db >>= (λ r. some (answered (bytes_of "Done\n"), r.1)))
      else if prefixeq path keyed
      then (query_key F J order orders time_ms (drop (length keyed) path) false db
          >>= (λ r. some (answered r.0, r.1)))
      else if prefixeq path plain
      then (query_key F J order orders time_ms (drop (length plain) path) true db
          >>= (λ r. some (answered r.0, r.1)))
      else some (answered [], db)

  unfoldable pub handle_get : Request → VideoDb → Option (Outcome × VideoDb)
  unfolding pooled_get info
  handle_get req db =
      if bytes_eq req.path (bytes_of "/info")
      then some (answered (info F J db), db)
      else if bytes_eq req.path (bytes_of "/exit")
      then some (exited, db)
      else if bytes_eq req.path (bytes_of "/save")
          || prefixeq req.path (bytes_of "/querykeyplain/")
          || prefixeq req.path (bytes_of "/querykey/")
      then (if not req.in_threadpool then some (switch_thread, db) else pooled_get req.path db)
      else some (answered help, db)

  unfoldable pub handle_post : Request → VideoDb → Option (Outcome × VideoDb)
  unfolding process
  handle_post req db =
      if not req.in_threadpool
      then some (switch_thread, db)
      else (process F J order orders req.postdata db >>= (λ r. some (body_of r.0, r.1)))

  unfoldable pub my_handler : Request → VideoDb → Option (Outcome × VideoDb)
  unfolding handle_get handle_post
  my_handler req db = elim req.type [
    | http_get ↦ handle_get req db
    | http_post ↦ handle_post req db
    | http_head ↦ some (answered [], db)
    | http_put ↦ some (answered [], db)
    | http_invalid ↦ some (answered [], db)
  ]
