-- ===== src/Pages.antt =====
-- `my_handler` of browse_server/main.cpp: the pages and pictures that the browse server gives out of
-- its cache of videos. The result `none` is a fault.
pub mod Serving
pub mod Links
pub mod Startup
use video_match.Base.{
  ℕ, zero, suc, ◌+◌, ◌%◌, ◌^◌, List, [], ◌∷◌, ◌++◌, Option, none, some, ◌==◌, if◌then◌else◌, length,
  Name, bytes_eq, bytes_of, ℤ, pos, negsuc, ◌+ℤ◌, ◌-ℤ◌,
}
use video_match.Cache.Files.{same_int}
use video_match.Cache.{Manager, Unpacked, lookup_size, lookup}
use video_match.Connection.{HttpConnection, http_200, http_404, set_header, set_body}
use video_match.Text.{atoi, decimal, printed, c_str, int_of}
use video_match.VideoDb.Index.{to_int, ◌>>=◌}

-- `gvm` and `bytes_out_total`
pub record Site : Type 0 where
  pub gvm : Manager
  pub bytes_out_total : ℕ

-- The loop over the characters of the path; `laststr` is what has been read of a part.
unfoldable pub path_params : Name → Name → List Name
path_params laststr [] = if length laststr == 0 then [] else laststr ∷ []
path_params laststr (c ∷ path) =
    let next = path_params [] path in
    let more = path_params (laststr ++ c ∷ []) path in
    if c == b'/' then (if length laststr == 0 then next else laststr ∷ next) else more

-- The links in the pages: a neighbouring page, in its buffer of 32 bytes, for which `%s` reads the
-- key up to a zero byte, and a picture, whose number is in one. `%d` prints an `int`.
unfoldable pub page_link : Name → ℤ → Name
unfolding decimal c_str to_int
page_link key id =
    printed 32 (bytes_of "/browse/" ++ c_str key ++ bytes_of "/" ++ decimal (int_of id))

unfoldable pub image_link : Name → ℤ → Name
unfolding decimal to_int
image_link key id = bytes_of "/image/" ++ key ++ bytes_of "/" ++ printed 32 (decimal (int_of id))

-- The page of one frame, of the video `key` with `frm_cnt` frames.
unfoldable pub browse_page : Name → ℤ → ℤ → Name
unfolding decimal ◌+ℤ◌ ◌-ℤ◌ page_link image_link
browse_page key curid frm_cnt =
    let titlestr = printed 32 (decimal curid ++ bytes_of " / " ++ decimal frm_cnt) in
    let prevaddr = page_link key (if same_int curid (pos 1) then pos 1 else curid -ℤ pos 1) in
    let nextaddr = page_link key (if same_int curid frm_cnt then curid else curid +ℤ pos 1) in
    bytes_of "<html><head><title>"
    ++ key
    ++ bytes_of "</title></head><body><center><h2>"
    ++ titlestr
    ++ bytes_of "</h2></center><center><img src=\""
    ++ image_link key curid
    ++ bytes_of "\" usemap=\"#img1\"align=\"middle\" width=600></center><map name=\"img1\">"
    ++ bytes_of "<area shape=\"rect\" coords=\"0,0,300,600\" href=\""
    ++ prevaddr
    ++ bytes_of "\" alt=\"Sun\"><area shape=\"rect\" coords=\"300,0,600,600\" href=\""
    ++ nextaddr
    ++ bytes_of "\" alt=\"Sun\"></map></body></html>"

-- The pictures of a video from the frame `i` on.
unfoldable pub all_pictures : Name → ℕ → ℕ → Name
unfolding image_link
all_pictures key zero i = []
all_pictures key (suc left) i =
    bytes_of "<center><img src=\""
    ++ image_link key (pos i)
    ++ bytes_of "\"align=\"middle\" width=600></center>\n<hr noshade size=4 width=600>"
    ++ all_pictures key left (i + 1)

unfoldable pub browse_all_page : Name → ℕ → Name
unfolding all_pictures decimal
browse_all_page key frm_cnt =
    bytes_of "<html><head><title>"
    ++ key
    ++ bytes_of "</title></head>\n<body><center><h2>"
    ++ printed 32 (bytes_of "Total " ++ decimal (pos frm_cnt) ++ bytes_of " frames")
    ++ bytes_of "</h2></center>\n"
    ++ all_pictures key frm_cnt 1
    ++ bytes_of "</body></html>"

-- Where the handler has a body, of this type; `none` is `HTTP_404`.
abbrev pub Made : Type 0
Made = Option (Name × Name)

unfoldable pub answer_page : Made → Site → HttpConnection → ℤ × HttpConnection × Site
unfolding set_header set_body
answer_page none site c = (http_404, c, site)
answer_page (some (type, body)) site c = (
  http_200,
  set_header (bytes_of "Server") (bytes_of "Video Browse Server 1.0")
      (set_body body (set_header (bytes_of "Content-Type") type c)),
  record site { bytes_out_total = (site.bytes_out_total + length body) % 2 ^ 64 },
)

abbrev pub html : Name
html = bytes_of "text/html"

module _ (unpack : Unpacked) where
  unfoldable pub browse : Name → ℤ → Manager → Option (Made × Manager)
  unfolding lookup_size browse_page
  browse key curid m = do
    (frm_cnt, m') ← lookup_size unpack key m
    elim frm_cnt [
      | negsuc n ↦ some (none, m')
      | pos n ↦ some (some (html, browse_page key curid (pos n)), m')
    ]

  unfoldable pub browse_all : Name → Manager → Option (Made × Manager)
  unfolding lookup_size browse_all_page
  browse_all key m = do
    (frm_cnt, m') ← lookup_size unpack key m
    elim frm_cnt [
      | negsuc n ↦ some (none, m')
      | pos n ↦ some (some (html, browse_all_page key n), m')
    ]

  unfoldable pub image : Name → ℤ → Manager → Option (Made × Manager)
  unfolding lookup
  image key frameid m = do
    (code, picture, m') ← lookup unpack key frameid [] m
    elim code [
      | negsuc n ↦ some (none, m')
      | pos n ↦ some (some (bytes_of "image/jpeg", picture), m')
    ]

  -- The branches over `params`. A path of two parts has no third, which "image" reads.
  unfoldable pub route : List Name → Manager → Option (Made × Manager)
  unfolding browse browse_all image atoi
  route [] m = some (none, m)
  route (verb ∷ []) m = some (none, m)
  route (verb ∷ key ∷ []) m =
      if bytes_eq verb (bytes_of "browse")
      then browse key (pos 1) m
      else if bytes_eq verb (bytes_of "browseall")
      then browse_all key m
      else if bytes_eq verb (bytes_of "image")
      then none
      else some (none, m)
  route (verb ∷ key ∷ id ∷ more) m =
      if bytes_eq verb (bytes_of "browse")
      then browse key (atoi id) m
      else if bytes_eq verb (bytes_of "browseall")
      then browse_all key m
      else if bytes_eq verb (bytes_of "image")
      then image key (atoi id) m
      else some (none, m)

  unfoldable pub my_handler : HttpConnection → Site → Option (ℤ × HttpConnection × Site)
  unfolding path_params route answer_page
  my_handler c site = do
    (made, m) ← route (path_params [] c.path) site.gvm
    some (answer_page made (record site { gvm = m }) c)
