-- ===== src/Pages/Serving.antt =====
-- The browse server where every video fits into its cache: requests do not fault.
use video_match.Base.{
  ◌<◌, ◌^◌, ◌≡◌, refl, Bool, false, ◌⊎◌, inl, inr, Bool-cases, List, [], ◌∷◌, Option, none, some,
  if◌then◌else◌, Name, length, suc, ap, bytes_eq, bytes_of, ℤ, pos, negsuc,
}
use video_match.Cache.Fetching.{SameLimits}
use video_match.Cache.Serving.{Fits, IsFit, lookup_size-IsFit, lookup-IsFit}
use video_match.Cache.{Manager, Unpacked, lookup_size, lookup}
use video_match.Connection.{HttpConnection, processing, http_200, http_404}
use video_match.Connection.Parsing.{parsed, try_parse_request}
use video_match.Connection.Responding.{async_write, handle_read}
use video_match.Connection.Responses.{process_request_answered}
use video_match.Pages.{
  Site, Made, path_params, answer_page, browse, browse_all, image, route, my_handler, html,
  browse_page, browse_all_page,
}
use video_match.Text.{atoi}
use video_match.VideoDb.Index.{◌>>=◌}

-- The parts of a path that asks for a picture and does not say which.
unfoldable pub lacks_frame : List Name → Bool
lacks_frame [] = false
lacks_frame (verb ∷ []) = false
lacks_frame (verb ∷ key ∷ []) =
    if bytes_eq verb (bytes_of "browse")
    then false
    else if bytes_eq verb (bytes_of "browseall")
    then false
    else bytes_eq verb (bytes_of "image")
lacks_frame (verb ∷ key ∷ id ∷ more) = false

abbrev Routes : Manager → Option (Made × Manager) → Type 0
Routes m r = (made : Made) × (m' : Manager) × (r ≡ some (made, m')) × IsFit m' × SameLimits m m'

module _ (unpack : Unpacked) (m : Manager) where
  browse_run :
      (key : Name) (curid code : ℤ) (m' : Manager)
      → lookup_size unpack key m ≡ some (code, m')
      → IsFit m'
      → SameLimits m m'
      → Routes m (browse unpack key curid m)
  unfolding browse
  browse_run key curid (pos n) m' run fit same =
      (some (html, browse_page key curid (pos n)), m', rw (run, browse) refl, fit, same)
  browse_run key curid (negsuc n) m' run fit same = (none, m', rw (run, browse) refl, fit, same)

  browse_all_run :
      (key : Name) (code : ℤ) (m' : Manager)
      → lookup_size unpack key m ≡ some (code, m')
      → IsFit m'
      → SameLimits m m'
      → Routes m (browse_all unpack key m)
  unfolding browse_all
  browse_all_run key (pos n) m' run fit same =
      (some (html, browse_all_page key n), m', rw (run, browse_all) refl, fit, same)
  browse_all_run key (negsuc n) m' run fit same = (none, m', rw (run, browse_all) refl, fit, same)

  image_run :
      (key : Name) (id code : ℤ) (picture : Name) (m' : Manager)
      → lookup unpack key id [] m ≡ some (code, picture, m')
      → IsFit m'
      → SameLimits m m'
      → Routes m (image unpack key id m)
  unfolding image
  image_run key id (pos n) picture m' run fit same =
      (some (bytes_of "image/jpeg", picture), m', rw (run, image) refl, fit, same)
  image_run key id (negsuc n) picture m' run fit same = (none, m', rw (run, image) refl, fit, same)

module _ (unpack : Unpacked) (m : Manager) (fit : IsFit m)
    (fits : (path : Name) → Fits m.cache_size (unpack path)) (small : m.cache_size < 2 ^ 63) where
  browse-IsFit : (key : Name) (curid : ℤ) → Routes m (browse unpack key curid m)
  browse-IsFit key curid =
      let (code, m', run, fit', same) = lookup_size-IsFit unpack m fit fits small key in
      browse_run unpack m key curid code m' run fit' same

  browse_all-IsFit : (key : Name) → Routes m (browse_all unpack key m)
  browse_all-IsFit key =
      let (code, m', run, fit', same) = lookup_size-IsFit unpack m fit fits small key in
      browse_all_run unpack m key code m' run fit' same

  image-IsFit : (key : Name) (id : ℤ) → Routes m (image unpack key id m)
  image-IsFit key id =
      let (code, b, m', run, fit', same) = lookup-IsFit unpack m fit fits small key id [] in
      image_run unpack m key id code b m' run fit' same

  unknown_page : Routes m (some (none, m))
  unknown_page = (none, m, refl, fit, (refl, refl))

  route-IsFit : (params : List Name) → lacks_frame params ≡ false → Routes m (route unpack params m)
  unfolding route lacks_frame
  route-IsFit [] whole = unknown_page
  route-IsFit (verb ∷ []) whole = unknown_page
  route-IsFit (verb ∷ key ∷ []) whole = elim (Bool-cases (bytes_eq verb (bytes_of "browse"))) [
    | inl one ↦ rw (one, Routes) (browse-IsFit key (pos 1))
    | inr not_one ↦ elim (Bool-cases (bytes_eq verb (bytes_of "browseall"))) [
      | inl all ↦ rw (not_one, Routes) (rw (all, Routes) (browse_all-IsFit key))
      | inr not_all ↦
          let other : bytes_eq verb (bytes_of "image") ≡ false =
            rw not_all at (rw not_one at whole) in
          rw (not_one, Routes) (rw (not_all, Routes) (rw (other, Routes) unknown_page))
    ]
  ]
  route-IsFit (verb ∷ key ∷ id ∷ more) whole =
      elim (Bool-cases (bytes_eq verb (bytes_of "browse"))) [
        | inl one ↦ rw (one, Routes) (browse-IsFit key (atoi id))
        | inr not_one ↦ elim (Bool-cases (bytes_eq verb (bytes_of "browseall"))) [
          | inl all ↦ rw (not_one, Routes) (rw (all, Routes) (browse_all-IsFit key))
          | inr not_all ↦ elim (Bool-cases (bytes_eq verb (bytes_of "image"))) [
            | inl picture ↦
                rw (not_one, Routes)
                  (rw (not_all, Routes) (rw (picture, Routes) (image-IsFit key (atoi id))))
            | inr other ↦
                rw (not_one, Routes) (rw (not_all, Routes) (rw (other, Routes) unknown_page))
          ]
        ]
      ]

-- The request can be answered: it names a frame where it asks for one.
abbrev pub IsWhole : HttpConnection → Type 0
IsWhole c = lacks_frame (path_params [] c.path) ≡ false

answer_page-code :
    (made : Made) (site : Site) (c : HttpConnection)
    → ((answer_page made site c).0 ≡ http_200) ⊎ ((answer_page made site c).0 ≡ http_404)
unfolding answer_page
answer_page-code none site c = inr refl
answer_page-code (some (type, body)) site c = inl refl

answer_page-gvm :
    (made : Made) (site : Site) (c : HttpConnection) → (answer_page made site c).2.gvm ≡ site.gvm
unfolding answer_page
answer_page-gvm none site c = refl
answer_page-gvm (some (type, body)) site c = refl

-- Where every video fits into the cache, whose size is below 2 ^ 63, and the videos kept do, the
-- handler answers every request but one for a picture that names no frame, with 200 or 404, and
-- leaves a cache that is as well-formed, of the same size and with the same list of paths.
pub my_handler-IsFit :
    (unpack : Unpacked) (site : Site)
    → IsFit site.gvm
    → ((path : Name) → Fits site.gvm.cache_size (unpack path))
    → site.gvm.cache_size < 2 ^ 63
    → (c : HttpConnection) → IsWhole c
    → (code : ℤ) × (c' : HttpConnection) × (site' : Site) × (my_handler unpack c site
        ≡ some (code, c', site'))
      × ((code ≡ http_200) ⊎ (code ≡ http_404))
      × IsFit site'.gvm
      × SameLimits site.gvm site'.gvm
unfolding my_handler
my_handler-IsFit unpack site fit fits small c whole =
    let (made, m, run, fit', same) =
      route-IsFit unpack site.gvm fit fits small (path_params [] c.path) whole in
    let after = answer_page made (record site { gvm = m }) c in
    let kept = answer_page-gvm made (record site { gvm = m }) c in
    (
      after.0,
      after.1,
      after.2,
      rw (run, my_handler) refl,
      answer_page-code made (record site { gvm = m }) c,
      rw kept fit',
      rw kept same,
    )

-- The handler on one request after the other, with the codes that it returns.
unfoldable pub serve : Unpacked → List HttpConnection → Site → Option (List ℤ × Site)
unfolding my_handler
serve unpack [] site = some ([], site)
serve unpack (c ∷ requests) site = do
  (code, c', site') ← my_handler unpack c site
  (codes, last) ← serve unpack requests site'
  some (code ∷ codes, last)

abbrev pub AllWhole : List HttpConnection → Type 0
AllWhole [] = Unit
AllWhole (c ∷ requests) = IsWhole c × AllWhole requests

-- Where every video fits into the cache, whose size is below 2 ^ 63, and the videos kept do, the
-- handler does not fault on any list of requests of which none is for a picture without a frame:
-- each request gets its code, and the cache is well-formed in the end.
pub serve-IsFit :
    (unpack : Unpacked) (requests : List HttpConnection) (site : Site)
    → IsFit site.gvm
    → ((path : Name) → Fits site.gvm.cache_size (unpack path))
    → site.gvm.cache_size < 2 ^ 63
    → AllWhole requests
    → (codes : List ℤ) × (site' : Site) × (serve unpack requests site ≡ some (codes, site'))
      × (length codes ≡ length requests)
      × IsFit site'.gvm
unfolding serve
serve-IsFit unpack [] site fit fits small whole = ([], site, refl, refl, fit)
serve-IsFit unpack (c ∷ requests) site fit fits small whole =
    let (code, c', site1, run, is, fit', same) =
      my_handler-IsFit unpack site fit fits small c whole.0 in
    let (codes, site2, rest, all, fit2) =
      serve-IsFit unpack requests site1 fit' (λ path. rw same.0 (fits path)) (rw same.0 small)
        whole.1 in
    (code ∷ codes, site2, rw (run, serve) (rw rest refl), ap suc all, fit2)

-- Where every video fits into the cache, whose size is below 2 ^ 63, and the videos kept do: bytes
-- that make a request whole, other than one for a picture without a frame, are answered at once,
-- and the cache is well-formed afterwards.
pub handle_read-IsFit :
    (unpack : Unpacked) (site : Site)
    → IsFit site.gvm
    → ((path : Name) → Fits site.gvm.cache_size (unpack path))
    → site.gvm.cache_size < 2 ^ 63
    → (bytes : Name) (c c1 : HttpConnection) → try_parse_request bytes c ≡ parsed c1
    → IsWhole c1
    → (text : Name) × (c2 : HttpConnection) × (site' : Site) × (handle_read
          (my_handler unpack)
          false
          bytes
          c
          site
        ≡ some (async_write text, c2, site'))
      × IsFit site'.gvm
unfolding handle_read
handle_read-IsFit unpack site fit fits small bytes c c1 whole_text whole =
    let (code, c', site', run, is, fit', same) =
      my_handler-IsFit unpack site fit fits small (record c1 { state = processing }) whole in
    let (text, c2, done) =
      process_request_answered (my_handler unpack) (record c1 { state = processing }) site code c'
        site' is run in
    (text, c2, site', rw (whole_text, handle_read) done, fit')
