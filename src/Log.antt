-- ===== src/Log.antt =====
-- The log of the match server: server/Log.cpp and the macros of server/Log.hpp. What `fopen`, the
-- clock and `vfprintf` give are arguments.
pub mod Naming
pub mod Printing
pub mod Clock
use video_match.Base.{
  ℕ, zero, suc, ◌+◌, Bool, true, false, List, [], ◌∷◌, ◌++◌, Option, none, some, ◌==◌, ltb, leb,
  if◌then◌else◌, get_or, set, drop, length, Name, bytes_of,
}
use video_match.Text.{c_str}
use video_match.Text.{printed}

pub data LogLevel : Type 0 where
  ltrace : LogLevel
  ldebug : LogLevel
  linfo : LogLevel
  lwarn : LogLevel
  lerror : LogLevel
  ldump : LogLevel

abbrev pub level_number : LogLevel → ℕ
level_number ltrace = 0
level_number ldebug = 1
level_number linfo = 2
level_number lwarn = 3
level_number lerror = 4
level_number ldump = 5

abbrev pub log_level_str : LogLevel → Name
log_level_str ltrace = bytes_of "TRACE"
log_level_str ldebug = bytes_of "DEBUG"
log_level_str linfo = bytes_of "INFO"
log_level_str lwarn = bytes_of "WARN"
log_level_str lerror = bytes_of "ERROR"
log_level_str ldump = bytes_of "DUMP"

-- `g_log_level` and `g_log_path`
pub record LogState : Type 0 where
  pub level : LogLevel
  pub path : Name

-- `none` is a null pointer.
unfoldable pub log_init : Option Name → LogLevel → LogState
log_init none level = record { level = level; path = [] }
log_init (some log_file) level = record { level = level; path = printed 512 log_file }

-- `strncpy(functionName2, functionName, 128)`: the text in the buffer, or `none` where it fills the
-- buffer, so that no zero byte ends it and `strlen` reads on behind it.
unfoldable pub copy_function : Name → Option Name
copy_function function =
    let text = c_str function in if ltb (length text) 128 then some text else none

-- The loop over the buffer from its end: where the name of the function begins, and the buffer.
unfoldable pub find_name : ℕ → Bool → Name → ℕ × Name
find_name zero find_space buffer = (0, buffer)
find_name (suc i) true buffer =
    let rest = find_name i true buffer in
    if get_or buffer i 0 == b' ' then (i + 1, buffer) else rest
find_name (suc i) false buffer =
    let cut = find_name i true (set buffer i 0) in
    let rest = find_name i false buffer in if get_or buffer i 0 == b'(' then cut else rest

unfoldable pub short_name : Name → Name
unfolding find_name
short_name text =
    let (start, buffer) = find_name (length text) false text in c_str (drop start buffer)

-- Where a line goes.
pub data Target : Type 0 where
  to_stderr : Target
  to_file : Name → Target

unfoldable pub target : LogState → (Name → Bool) → Target
target s can_open =
    if length s.path == 0 then to_stderr else if can_open s.path then to_file s.path else to_stderr

abbrev pub log_line : Name → LogLevel → Name → Name → Name
log_line time curlevel name message =
    bytes_of "["
    ++ time
    ++ bytes_of "]["
    ++ log_level_str curlevel
    ++ bytes_of "] ["
    ++ name
    ++ bytes_of "] "
    ++ message
    ++ bytes_of "\n"

abbrev pub Printed : Type 0
Printed = List (Target × Name)

-- `LogMsg`: what is printed, or `none` where it reads outside of its buffer.
unfoldable pub log_msg : LogState → (Name → Bool) → Name → LogLevel → Name → Name → Option Printed
unfolding copy_function short_name target
log_msg s can_open time curlevel function message =
    if ltb (level_number curlevel) (level_number s.level)
    then some []
    else elim (copy_function function) [
      | none ↦ none
      | some text ↦
          some ((target s can_open, log_line time curlevel (short_name text) message) ∷ [])
    ]

-- Which of `_LOG_NONE` to `_LOG_DUMP` the program is built with; `plain` without any.
pub data Build : Type 0 where
  plain : Build
  log_none : Build
  log_debug : Build
  log_info : Build
  log_warn : Build
  log_error : Build
  log_dump : Build

-- Whether the macro of a level stands for a call of `LogMsg`.
unfoldable pub calls : Build → LogLevel → Bool
calls plain level = true
calls log_none level = false
calls log_debug ltrace = false
calls log_debug level = true
calls log_info ltrace = false
calls log_info ldebug = false
calls log_info level = true
calls log_warn lwarn = true
calls log_warn lerror = true
calls log_warn ldump = true
calls log_warn level = false
calls log_error lerror = true
calls log_error ldump = true
calls log_error level = false
calls log_dump ldump = true
calls log_dump level = false

-- `LOG_TRACE` to `LOG_DUMP`
unfoldable pub log_macro :
    Build → LogState → (Name → Bool) → Name → LogLevel → Name → Name → Option Printed
unfolding calls log_msg
log_macro build s can_open time level function message =
    if calls build level then log_msg s can_open time level function message else some []
