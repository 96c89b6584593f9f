-- ===== src/Examples/Programs.antt =====
-- The program with the stress preset, the presets that it offers, and its logger.
use chaos_kvs.Base.{◌≡◌, none, List, [], ◌∷◌, ◌++◌}
use chaos_kvs.Base.Order.{backwards}
use chaos_kvs.Examples.{heap, float}
use chaos_kvs.Examples.Scenarios.{quiet_env, parse_duration, lower}
use chaos_kvs.Logger.{Logger, level_info, level_warn}
use chaos_kvs.Logger.History.{
  Text, Call, sets, logs, debugs, informs, errs, lines, level_after, out-run,
}
use chaos_kvs.Logger.History
use chaos_kvs.Heap.{Heap}
use chaos_kvs.Scenario.Engine.{Engine}
use chaos_kvs.Scenario.Engine.Running.{run}
use chaos_kvs.Config.{failed, failed_to_read}
use chaos_kvs.Scenario.{Config}
use chaos_kvs.Api.Routes.{server_closed}
use chaos_kvs.Main.Program.{Options, Surroundings, default_options}

abbrev options : Options
unfolding default_options
options = record default_options { flags = record default_options.flags { preset_name = "stress" } }

abbrev surroundings : Surroundings float
surroundings = record {
  formats = record {
    time_text = λ t. "now";
    duration_text = λ d. "1s";
    round = λ n d. d;
    percent_text = λ x. "0.00";
  };
  status_order = backwards;
  env = quiet_env;
  heap = heap;
  timestamp = "now";
  build_error_text = λ e. "bad flags";
  engine_error_text = λ e. "bad scenario";
  loaded = failed failed_to_read;
  parse_duration = parse_duration;
  to_lower = lower;
  version = "dev";
  files_error = none;
  listened = server_closed;
}

abbrev logger : Logger
logger = record { out = []; min_level = level_info }

abbrev text : Text
text = record { timestamp = "now"; node_id = "a"; message = "m" }

-- The first and the third message are below the least level.
abbrev calls : List Call
calls =
    logs debugs text ∷ logs informs text ∷ sets level_warn ∷ logs informs text ∷ logs errs text ∷ []

out-run_example :
    ((History.run calls logger).out ≡ logger.out ++ lines logger.min_level calls)
    × ((History.run calls logger).min_level ≡ level_after logger.min_level calls)
out-run_example = out-run calls logger
