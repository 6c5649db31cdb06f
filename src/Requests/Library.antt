-- ===== src/Requests/Library.antt =====
-- The part of the library jsoncpp that server/RequestProcessor.cpp and client/Requester.cpp use, and
-- the text of a score.
use video_match.Base.{ℕ, Bool, Option, Name, ℤ}
use video_match.Score.Floats.{Double}

-- `none` is an exception.
pub record Json (F : Double) : Type 1 where
  pub Value : Type 0
  pub null : Value
  pub from_int : ℤ → Value
  pub from_uint64 : ℕ → Value
  pub from_string : Name → Value
  pub from_double : F.Num → Value
  -- `v[key]`, `v[key] = x` and `v[(int)i] = x`
  pub get : Value → Name → Value
  pub set : Value → Name → Value → Value
  pub set_at : Value → ℕ → Value → Value
  pub at : Value → ℕ → Value
  pub size : Value → ℕ
  pub is_member : Value → Name → Option Bool
  pub is_string : Value → Bool
  pub is_array : Value → Bool
  pub as_string : Value → Name
  pub as_uint64 : Value → Option ℕ
  -- `Json::Reader`, `Json::StyledWriter`
  pub parse : Name → Option Value
  pub write : Value → Name
  -- `"%s %s %f\n"` of `snprintf`, before it is cut to the size of the buffer.
  pub line : Name → Name → F.Num → Name
