-- ===== src/Connection/Fields.antt =====
-- The headers of a response of browse_server/http_server.cpp: setting them and reading them.
use video_match.Base.{
  ◌≡◌, refl, true, false, Bool-cases, inl, inr, [], ◌∷◌, Option, none, some, if◌then◌else◌, ◌∙◌, ap,
  Name, bytes_eq, bytes_eq_refl, bytes_eq_iff,
}
use video_match.Connection.{Headers, HttpConnection, put_header, has_header, set_header}
use video_match.Connection.Responding.{default_header}
use video_match.Text.{bytes_ltb}

pub default_header-http_ret :
    (k v : Name) (c : HttpConnection) → (default_header k v c).http_ret ≡ c.http_ret
unfolding default_header set_header
default_header-http_ret k v c = elim (Bool-cases (has_header k c.headers)) [
  | inl there ↦ rw there refl
  | inr absent ↦ rw absent refl
]

pub default_header-body : (k v : Name) (c : HttpConnection) → (default_header k v c).body ≡ c.body
unfolding default_header set_header
default_header-body k v c = elim (Bool-cases (has_header k c.headers)) [
  | inl there ↦ rw there refl
  | inr absent ↦ rw absent refl
]

-- The value of a header.
unfoldable pub header_of : Name → Headers → Option Name
header_of key [] = none
header_of key (e ∷ headers) = if bytes_eq e.0 key then some e.1 else header_of key headers

pub header_of-put_header : (k v : Name) (hs : Headers) → header_of k (put_header k v hs) ≡ some v
unfolding header_of put_header
header_of-put_header k v [] = rw (bytes_eq_refl k) refl
header_of-put_header k v (e ∷ hs) = elim (Bool-cases (bytes_eq e.0 k)) [
  | inl same ↦ rw same (rw (bytes_eq_refl k) refl)
  | inr other ↦ elim (Bool-cases (bytes_ltb k e.0)) [
    | inl before ↦ rw other (rw before (rw (bytes_eq_refl k) refl))
    | inr behind ↦ rw other (rw behind (rw other (header_of-put_header k v hs)))
  ]
]

pub header_of_other :
    (k j v : Name) (hs : Headers)
    → bytes_eq k j ≡ false
    → header_of j (put_header k v hs) ≡ header_of j hs
unfolding header_of put_header
header_of_other k j v [] away = rw away refl
header_of_other k j v (e ∷ hs) away = elim (Bool-cases (bytes_eq e.0 k)) [
  | inl same ↦
      let t : e.0 ≡ k = (bytes_eq_iff e.0 k).0 same in
      let u : bytes_eq e.0 j ≡ false = ap (λ x. bytes_eq x j) t ∙ away in
      rw same (rw away (rw u refl))
  | inr other ↦ elim (Bool-cases (bytes_ltb k e.0)) [
    | inl before ↦ rw other (rw before (rw away refl))
    | inr behind ↦ rw other (
        rw behind
          (ap (λ x. if bytes_eq e.0 j then some e.1 else x) (header_of_other k j v hs away)))
  ]
]

pub has_header-header_of :
    (k : Name) (hs : Headers)
    → has_header k hs ≡ (elim (header_of k hs) [ none ↦ false | some v ↦ true ])
unfolding has_header header_of
has_header-header_of k [] = refl
has_header-header_of k (e ∷ hs) = elim (Bool-cases (bytes_eq e.0 k)) [
  | inl same ↦ rw same refl
  | inr other ↦ rw other (has_header-header_of k hs)
]

pub default_header-header_of :
    (k j v : Name) (c : HttpConnection)
    → bytes_eq k j ≡ false
    → header_of j (default_header k v c).headers ≡ header_of j c.headers
unfolding default_header set_header
default_header-header_of k j v c away = elim (Bool-cases (has_header k c.headers)) [
  | inl there ↦ rw there refl
  | inr absent ↦ rw absent (header_of_other k j v c.headers away)
]
