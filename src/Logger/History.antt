-- ===== src/Logger/History.antt =====
-- internal/logger/logger.go: which lines a history of calls writes.
use chaos_kvs.Base.{
  ◌≡◌, refl, List, [], ◌∷◌, ◌++◌, String, ltb_ℤ, if◌then◌else◌, sym, ap, ◌∙◌, arith,
}
use chaos_kvs.Logger.{
  Level, Logger, set_level, debug, info, warn, error, log, line, level_debug, level_info,
  level_warn, level_error,
}
use mathlib.Core.List.{append_assoc, append-nil}

-- The text of the time, the node and the message of a call.
pub record Text : Type 0 where
  pub timestamp : String
  pub node_id : String
  pub message : String

pub data Method : Type 0 where
  debugs informs warns errs : Method

abbrev pub level_of : Method → Level
level_of debugs = level_debug
level_of informs = level_info
level_of warns = level_warn
level_of errs = level_error

unfoldable pub called : Method → Text → Logger → Logger
unfolding debug info warn error
called debugs t l = debug t.timestamp t.node_id t.message l
called informs t l = info t.timestamp t.node_id t.message l
called warns t l = warn t.timestamp t.node_id t.message l
called errs t l = error t.timestamp t.node_id t.message l

pub data Call : Type 0 where
  sets : Level → Call
  logs : Method → Text → Call

unfoldable pub step : Call → Logger → Logger
unfolding set_level called
step (sets level) l = set_level level l
step (logs method t) l = called method t l

unfoldable pub run : List Call → Logger → Logger
unfolding step
run [] l = l
run (c ∷ cs) l = run cs (step c l)

-- The least level after a history: the one set last.
abbrev pub level_after : Level → List Call → Level
level_after level [] = level
level_after level (sets other ∷ cs) = level_after other cs
level_after level (_ ∷ cs) = level_after level cs

-- The line of a message, unless its level is less than the least one.
abbrev pub lines_of : Level → Level → Text → List String
lines_of least level t =
    if ltb_ℤ level least then [] else line t.timestamp level t.node_id t.message ∷ []

-- The lines of a history, told without a logger.
abbrev pub lines : Level → List Call → List String
lines least [] = []
lines least (sets level ∷ cs) = lines level cs
lines least (logs method t ∷ cs) = lines_of least (level_of method) t ++ lines least cs

called_lem :
    (method : Method) (t : Text) (l : Logger)
    → ((called method t l).out ≡ l.out ++ lines_of l.min_level (level_of method) t)
      × ((called method t l).min_level ≡ l.min_level)
unfolding called debug info warn error log
called_lem debugs t l = ground (arith, append-nil l.out)
called_lem informs t l = ground (arith, append-nil l.out)
called_lem warns t l = ground (arith, append-nil l.out)
called_lem errs t l = ground (arith, append-nil l.out)

-- A history of calls adds, in order, the line of each message whose level was not less than the one then set last;
-- the messages below it leave no trace, and what was written before stays.
pub out-run :
    (cs : List Call) (l : Logger)
    → ((run cs l).out ≡ l.out ++ lines l.min_level cs)
      × ((run cs l).min_level ≡ level_after l.min_level cs)
unfolding run step set_level
out-run [] l = (sym (append-nil l.out), refl)
out-run (sets level ∷ cs) l = out-run cs (record l { min_level = level })
out-run (logs method t ∷ cs) l =
    let l' = called method t l in
    let (out, least) = called_lem method t l in
    let (added, last) = out-run cs l' in
    (
      added
          ∙ ap (λ k. l'.out ++ lines k cs) least
          ∙ ap (λ o. o ++ lines l.min_level cs) out
          ∙ append_assoc l.out (lines_of l.min_level (level_of method) t) (lines l.min_level cs),
      last ∙ ap (λ k. level_after k cs) least,
    )
