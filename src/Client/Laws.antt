-- ===== src/Client/Laws.antt =====
-- What client/Requester.cpp and server/RequestProcessor.cpp rely on of the library jsoncpp.
use video_match.Base.{ℕ, ◌+◌, ◌<◌, ◌^◌, ◌≡◌, true, some, if◌then◌else◌, ◌==◌, Name, bytes_eq}
use video_match.Requests.Library.{Json}
use video_match.Score.Floats.{Double}

-- The documented behaviour of members and elements: null is an empty object and an empty array, an
-- assignment to a member leaves the other members, and one behind the end of an array makes it
-- longer by one.
pub record JsonLaws (F : Double) (J : Json F) : Type 1 where
  pub IsObject : J.Value → Type 0
  pub null-IsObject : IsObject J.null
  pub set-IsObject : (v x : J.Value) (k : Name) → IsObject v → IsObject (J.set v k x)
  pub get-null : (k : Name) → J.get J.null k ≡ J.null
  pub get-set :
      (v x : J.Value) (j k : Name)
      → IsObject v
      → J.get (J.set v j x) k ≡ (if bytes_eq j k then x else J.get v k)
  pub is_member-set :
      (v x : J.Value) (j k : Name)
      → IsObject v
      → J.is_member (J.set v j x) k ≡ (if bytes_eq j k then some true else J.is_member v k)
  pub IsArray : J.Value → Type 0
  pub null-IsArray : IsArray J.null
  pub set_at-IsArray : (a x : J.Value) → IsArray a → IsArray (J.set_at a (J.size a) x)
  pub size-null : J.size J.null ≡ 0
  pub size-set_at : (a x : J.Value) → IsArray a → J.size (J.set_at a (J.size a) x) ≡ J.size a + 1
  pub at-set_at :
      (a x : J.Value) (i : ℕ)
      → IsArray a
      → J.at (J.set_at a (J.size a) x) i ≡ (if i == J.size a then x else J.at a i)
  pub is_array-set_at : (a x : J.Value) → IsArray a → J.is_array (J.set_at a (J.size a) x) ≡ true
  pub is_string-from_string : (s : Name) → J.is_string (J.from_string s) ≡ true
  pub as_string-from_string : (s : Name) → J.as_string (J.from_string s) ≡ s
  pub as_uint64-from_uint64 : (n : ℕ) → n < 2 ^ 64 → J.as_uint64 (J.from_uint64 n) ≡ some n

-- A value that has been written and read again has the same members.
pub record Rereads (F : Double) (J : Json F) (v w : J.Value) : Type 0 where
  pub same_member : (k : Name) → J.is_member w k ≡ J.is_member v k
  pub same_is_string : (k : Name) → J.is_string (J.get w k) ≡ J.is_string (J.get v k)
  pub same_string : (k : Name) → J.as_string (J.get w k) ≡ J.as_string (J.get v k)
  pub same_is_array : (k : Name) → J.is_array (J.get w k) ≡ J.is_array (J.get v k)
  pub same_size : (k : Name) → J.size (J.get w k) ≡ J.size (J.get v k)
  pub same_uint64 :
      (k : Name) (i : ℕ) → J.as_uint64 (J.at (J.get w k) i) ≡ J.as_uint64 (J.at (J.get v k) i)
