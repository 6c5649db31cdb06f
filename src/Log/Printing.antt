-- ===== src/Log/Printing.antt =====
-- Which lines the log prints, and with which name.
use video_match.Base.{
  ℕ, ◌<◌, ◌≡◌, refl, Bool, true, false, ◌&&◌, ◌||◌, [], ◌∷◌, ◌++◌, some, leb, if◌then◌else◌, length,
  member, Name, arith, lt→ltb,
}
use video_match.Log.Naming.{function_text, short_name_lem}
use video_match.Log.{
  LogLevel, ltrace, level_number, LogState, Build, plain, log_none, log_debug, log_info, log_warn,
  log_error, log_dump, calls, copy_function, target, log_line, log_msg, log_macro, Printed,
}
use video_match.Text.{c_str_whole}

-- The lowest level that a build keeps.
abbrev pub least : Build → ℕ
least plain = 0
least log_none = 6
least log_debug = 1
least log_info = 2
least log_warn = 3
least log_error = 4
least log_dump = 5

calls-least :
    (build : Build) (level : LogLevel) → calls build level ≡ leb (least build) (level_number level)
unfolding calls
calls-least plain ltrace = refl
calls-least plain _ = refl
calls-least log_none ltrace = refl
calls-least log_none _ = refl
calls-least log_debug ltrace = refl
calls-least log_debug _ = refl
calls-least log_info ltrace = refl
calls-least log_info _ = refl
calls-least log_warn ltrace = refl
calls-least log_warn _ = refl
calls-least log_error ltrace = refl
calls-least log_error _ = refl
calls-least log_dump ltrace = refl
calls-least log_dump _ = refl

both_tests :
    (a b : Bool) (line : Printed)
    → (if a then some (if b then line else []) else some []) ≡ some (if a && b then line else [])
both_tests true b line = refl
both_tests false b line = refl

member-append : (b : ℕ) (xs ys : Name) → member b (xs ++ ys) ≡ member b xs || member b ys
member-append b [] ys = refl
member-append b (x ∷ xs) ys = ground (arith, member-append b xs ys)

module _ (before name args : Name) where
  copied :
      member 0 (function_text before name args) ≡ false
      → length (function_text before name args) < 128
      → copy_function (function_text before name args) ≡ some (function_text before name args)
  unfolding copy_function
  copied whole short =
      let text = function_text before name args in
      rw (c_str_whole text whole) (rw (lt→ltb (length text) 128 short) refl)

  name_whole : member 0 (function_text before name args) ≡ false → member 0 name ≡ false
  name_whole whole = ground (
    arith,
    member-append 0 (before ++ b' ' ∷ name) (b'(' ∷ args),
    member-append 0 before (b' ' ∷ name),
  )

  printed_line :
      (s : LogState) (can_open : Name → Bool) (time : Name) (level : LogLevel) (message : Name)
      → member b'(' args ≡ false
      → member b' ' name ≡ false
      → member 0 (function_text before name args) ≡ false
      → length (function_text before name args) < 128
      → log_msg s can_open time level (function_text before name args) message
        ≡ some (
            if leb (level_number s.level) (level_number level)
            then (target s can_open, log_line time level name message) ∷ []
            else [])
  unfolding log_msg
  printed_line s can_open time level message plain_args plain_name whole short =
      let named = short_name_lem before name args plain_args plain_name (name_whole whole) in
      rw (copied whole short, log_msg) (rw named (ground arith))

  -- For a function whose text is that of its type, a space, its name, a parenthesis and the rest, in
  -- fewer than 128 bytes, without another parenthesis that opens after it and without a space in the
  -- name: a macro of the log prints one line, with just the name of the function, exactly where the
  -- level is kept by the build and is not below the level that the log was opened with. It goes to the
  -- file, or to the standard error where there is none or it cannot be opened.
  pub log_macro-leb :
      (build : Build) (s : LogState) (can_open : Name → Bool) (time : Name) (level : LogLevel)
      (message : Name)
      → member b'(' args ≡ false
      → member b' ' name ≡ false
      → member 0 (function_text before name args) ≡ false
      → length (function_text before name args) < 128
      → log_macro build s can_open time level (function_text before name args) message
        ≡ some (
            if leb (least build) (level_number level)
              && leb (level_number s.level) (level_number level)
            then (target s can_open, log_line time level name message) ∷ []
            else [])
  unfolding log_macro
  log_macro-leb build s can_open time level message plain_args plain_name whole short =
      let line = printed_line s can_open time level message plain_args plain_name whole short in
      rw (calls-least build level) (rw line (both_tests _ _ _))
