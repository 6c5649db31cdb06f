-- ===== src/Handler/Default.antt =====
-- `HttpServer::default_handler` of server/http_server.hpp, the handler that the server has where the
-- program gives it none.
use video_match.Base.{◌&&◌, not, List, [], ◌∷◌, ◌++◌, if◌then◌else◌, take, Name, bytes_of, bytes_eq}
use video_match.Handler.{Method, http_get, http_post, Request}

-- `HTTP_SWITCH_THREAD`, or `HTTP_200` with a body and headers.
pub data DefaultReply : Type 0 where
  to_thread : DefaultReply
  page : Name → List (Name × Name) → DefaultReply

unfoldable pub method_name : Method → Name
method_name http_get = bytes_of "GET"
method_name http_post = bytes_of "POST"
method_name other = []

-- In the thread pool the body ends after the path: a semicolon cuts its expression in two.
unfoldable pub default_body : Request → Name
unfolding method_name
default_body req =
    if not req.in_threadpool
    then bytes_of "<html><body><h1>Type: "
      ++ method_name req.type
      ++ bytes_of "    Path: "
      ++ req.path
      ++ bytes_of "</h1><h3>"
      ++ req.postdata
      ++ bytes_of "</h3></body></html>\n"
    else bytes_of "<html><body><h1>IN THREAD!</h1><h1>Path: " ++ req.path

unfoldable pub default_handler : Request → DefaultReply
unfolding default_body
default_handler req =
    if bytes_eq (take 7 req.path) (bytes_of "/thread") && not req.in_threadpool
    then to_thread
    else page (default_body req) (
        (bytes_of "Server", bytes_of "TinyWebServer Demo 1.0")
        ∷ (bytes_of "Content-Type", bytes_of "text/html")
        ∷ [])
