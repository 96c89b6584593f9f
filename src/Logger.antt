-- ===== src/Logger.antt =====
-- internal/logger/logger.go. What `Fprintf` writes is a list of lines, in the order in which they are written; the text
-- of the time and the message that `Sprintf` makes are arguments.
pub mod History
use chaos_kvs.Base.{
  zero, suc, List, [], ◌∷◌, ◌++◌, String, String_eq, ◌==◌, ℤ, pos, ltb_ℤ, not, if◌then◌else◌,
}
use Prim.Native.String.{◌++◌ as str_append}

-- `type Level int`: any number, of which four have names.
abbrev pub Level : Type 0
Level = ℤ

abbrev pub level_debug : Level
level_debug = pos 0

abbrev pub level_info : Level
level_info = pos 1

abbrev pub level_warn : Level
level_warn = pos 2

abbrev pub level_error : Level
level_error = pos 3

unfoldable pub level_string : Level → String
level_string (pos zero) = "DEBUG"
level_string (pos (suc zero)) = "INFO"
level_string (pos (suc (suc zero))) = "WARN"
level_string (pos (suc (suc (suc zero)))) = "ERROR"
level_string _ = "UNKNOWN"

pub record Logger : Type 0 where
  pub out : List String
  pub min_level : Level

unfoldable pub new : List String → Level → Logger
new out min_level = record { out = out; min_level = min_level }

-- `Default`, over what stdout holds.
unfoldable pub default_logger : List String → Logger
unfolding new
default_logger out = new out level_info

unfoldable pub set_level : Level → Logger → Logger
set_level level l = record l { min_level = level }

abbrev bracketed : String → String → String
bracketed text rest = str_append "[" (str_append text (str_append "] " rest))

-- The line that is written: the part for the node is left out where there is none.
unfoldable pub line : String → Level → String → String → String
unfolding level_string
line timestamp level node_id message =
    let end = str_append message "\n" in
    bracketed timestamp
      (bracketed (level_string level) (if not (node_id == "") then bracketed node_id end else end))

unfoldable pub log : String → Level → String → String → Logger → Logger
unfolding line
log timestamp level node_id message l =
    if ltb_ℤ level l.min_level
    then l
    else record l { out = l.out ++ line timestamp level node_id message ∷ [] }

unfoldable pub debug : String → String → String → Logger → Logger
unfolding log
debug timestamp = log timestamp level_debug

unfoldable pub info : String → String → String → Logger → Logger
unfolding log
info timestamp = log timestamp level_info

unfoldable pub warn : String → String → String → Logger → Logger
unfolding log
warn timestamp = log timestamp level_warn

unfoldable pub error : String → String → String → Logger → Logger
unfolding log
error timestamp = log timestamp level_error
