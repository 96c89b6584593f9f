-- ===== src/Scenario/Report.antt =====
-- internal/scenario/scenario.go, Report: the text of a result. What the standard library makes of times, durations and
-- floating-point numbers is an argument.
use chaos_kvs.Base.{ℕ, zero, suc, List, [], ◌∷◌, ◌++◌, map, String, ℤ}
use Prim.Native.String.{◌++◌ as str_append}
use chaos_kvs.Base.Decimal.{decimal}
use chaos_kvs.Base.Order.{OrderOf}
use chaos_kvs.Metrics.{Float}
use chaos_kvs.Scenario.Engine.Results.{Result}

-- `%-12s`: blanks up to a width.
abbrev pub padded : ℕ → String → String
padded zero s = s
padded (suc n) String.[] = String.◌∷◌ " " (padded n String.[])
padded (suc n) (String.◌∷◌ c s) = String.◌∷◌ c (padded n s)

-- The lines, each with its end.
abbrev pub joined : List String → String
joined [] = ""
joined (line ∷ lines) = str_append line (str_append "\n" (joined lines))

abbrev pub rule_line : String
rule_line = "================================================================================"

module _ (float : Float) where
  open float use {F}

  -- `Time.Format`, `Duration.String`, `Duration.Round` to so many nanoseconds, and `%.2f` of the hundredfold.
  pub record Formats : Type 0 where
    pub time_text : ℕ → String
    pub duration_text : ℤ → String
    pub round : ℕ → ℤ → ℤ
    pub percent_text : F → String

  unfoldable pub header_lines : Formats → Result float → List String
  header_lines f r =
      ""
      ∷ rule_line
      ∷ str_append "                         SCENARIO REPORT: " r.scenario_name
      ∷ rule_line
      ∷ ""
      ∷ "EXECUTION SUMMARY"
      ∷ "-----------------"
      ∷ str_append "  Start Time:     " (f.time_text r.start_time)
      ∷ str_append "  End Time:       " (f.time_text r.end_time)
      ∷ str_append "  Duration:       " (f.duration_text (f.round 1000000 r.duration))
      ∷ ""
      ∷ "TRAFFIC METRICS"
      ∷ "---------------"
      ∷ str_append "  Total Requests:   " (decimal r.total_requests)
      ∷ str_append "  Success:          " (decimal r.success_requests)
      ∷ str_append "  Failed:           " (decimal r.failed_requests)
      ∷ str_append "  Error Rate:       " (str_append (f.percent_text r.error_rate) "%")
      ∷ str_append "  Avg Latency:      " (f.duration_text (f.round 1000 r.avg_latency))
      ∷ str_append "  P99 Latency:      " (f.duration_text (f.round 1000 r.p99_latency))
      ∷ ""
      ∷ "CHAOS STATISTICS"
      ∷ "----------------"
      ∷ str_append "  Total Attacks:    " (decimal r.total_attacks)
      ∷ ""
      ∷ "RECOVERY STATISTICS"
      ∷ "-------------------"
      ∷ str_append "  Total Recoveries:   " (decimal r.total_recoveries)
      ∷ str_append "  Successful:         " (decimal r.success_recoveries)
      ∷ str_append "  Failed:             " (decimal r.failed_recoveries)
      ∷ ""
      ∷ "FINAL NODE STATUS"
      ∷ "-----------------"
      ∷ []

  abbrev pub node_line : String × String → String
  node_line e = str_append "  " (str_append (padded 20 (str_append e.0 ":")) (str_append " " e.1))

  -- The map of the final statuses is visited in any order.
  unfoldable pub report : Formats → OrderOf (String × String) → Result float → String
  unfolding header_lines
  report f order r =
      str_append (joined (header_lines f r ++ map node_line (order.apply r.final_node_status)))
        (str_append "\n" rule_line)
