-- ===== src/Log/Clock.antt =====
-- The clocks of the match server: `LogTime` of server/Log.cpp and server/TimeCounter.hpp.
use video_match.Base.{
  ℕ, ◌+◌, ◌-◌, ◌*◌, ◌/◌, ◌≤◌, ◌≡◌, ◌∷◌, ◌++◌, ltb, if◌then◌else◌, Name, bytes_of, ℤ, pos, negsuc,
  ◌+ℤ◌, ◌-ℤ◌, arith,
}
use video_match.Text.{decimal}

-- `struct tm`, as far as it is printed.
pub record Tm : Type 0 where
  pub tm_mon : ℕ
  pub tm_mday : ℕ
  pub tm_hour : ℕ
  pub tm_min : ℕ
  pub tm_sec : ℕ

-- `%02d` and `%03d`
abbrev pub two_digits : ℕ → Name
two_digits n = let s = decimal (pos n) in if ltb n 10 then b'0' ∷ s else s

abbrev pub three_digits : ℕ → Name
three_digits n = let s = two_digits n in if ltb n 100 then b'0' ∷ s else s

-- `LogTime`: the text, of a time of day and the microseconds of the clock.
unfoldable pub log_time : Tm → ℕ → Name
log_time t tv_usec =
    two_digits (t.tm_mon + 1)
    ++ bytes_of "-"
    ++ two_digits t.tm_mday
    ++ bytes_of " "
    ++ two_digits t.tm_hour
    ++ bytes_of ":"
    ++ two_digits t.tm_min
    ++ bytes_of ":"
    ++ two_digits t.tm_sec
    ++ bytes_of ":"
    ++ three_digits (tv_usec / 1000)

-- `struct timeval`
pub record TimeVal : Type 0 where
  pub tv_sec : ℤ
  pub tv_usec : ℤ

-- A product with a whole number.
unfoldable pub times : ℕ → ℤ → ℤ
times k (pos n) = pos (k * n)
times k (negsuc n) = pos 0 -ℤ pos (k * (n + 1))

-- `x / k` rounds towards 0.
unfoldable pub quotient : ℤ → ℕ → ℤ
quotient (pos n) k = pos (n / k)
quotient (negsuc n) k = pos 0 -ℤ pos ((n + 1) / k)

-- `TimeCounter`: the microseconds from its reset to now, and `GetTimeMilliS` and `GetTimeS`.
unfoldable pub get_interval : TimeVal → TimeVal → ℤ
unfolding times ◌+ℤ◌ ◌-ℤ◌
get_interval start now = times 1000000 (now.tv_sec -ℤ start.tv_sec) +ℤ now.tv_usec -ℤ start.tv_usec

unfoldable pub get_time_milli_s : TimeVal → TimeVal → ℤ
unfolding get_interval quotient
get_time_milli_s start now = quotient (get_interval start now) 1000

unfoldable pub get_time_s : TimeVal → TimeVal → ℤ
unfolding get_interval quotient
get_time_s start now = quotient (get_interval start now) 1000000

-- A clock that does not go back between the reset and now measures a time that is not negative, of as
-- many microseconds as there are between the two.
get_interval-pos :
    (s t u v : ℕ)
    → 1000000 * s + u ≤ 1000000 * t + v
    → get_interval
        (record { tv_sec = pos s; tv_usec = pos u })
        (record { tv_sec = pos t; tv_usec = pos v })
      ≡ pos (1000000 * t + v - (1000000 * s + u))
unfolding get_interval
get_interval-pos s t u v h = ground arith
