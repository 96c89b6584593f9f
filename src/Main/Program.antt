-- ===== src/Main/Program.antt =====
-- cmd/chaos-kvs/main.go: the program, from its flags to what it prints and its exit status. What it prints goes to
-- stdout, as do the lines of the logger, of which only those of main are kept. The texts of errors, the file that the
-- configuration is read from and what ListenAndServe comes to are arguments.
pub mod Presets
pub mod Completion
use chaos_kvs.Base.{
  ℕ, suc, Bool, true, false, Option, none, some, List, [], ◌∷◌, ◌++◌, String, ℤ, pos, negsuc, ◌⊎◌,
  inl, inr, if◌then◌else◌, map,
}
use Prim.Native.String.{◌++◌ as str_append}
use mathlib.Core.Option
use chaos_kvs.Base.Decimal.{decimal}
use chaos_kvs.Base.Order.{OrderOf}
use chaos_kvs.Heap.{Heap}
use chaos_kvs.Logger.{Logger, error}
use chaos_kvs.Metrics.{Float}
use chaos_kvs.Config.{FileConfig}
use chaos_kvs.Config
use chaos_kvs.Scenario.{Config}
use chaos_kvs.Scenario.Engine.{EngineError, new}
use chaos_kvs.Scenario.Engine.Results.{Result}
use chaos_kvs.Scenario.Engine.Running.{Env, run}
use chaos_kvs.Scenario.Report.{Formats, report, padded}
use chaos_kvs.Api.Routes.{Listened, serve}
use chaos_kvs.Main.{Flags, BuildError, build_scenario_config}

-- All flags.
pub record Options : Type 0 where
  pub flags : Flags
  pub list_presets : Bool
  pub show_version : Bool
  pub server_mode : Bool
  pub server_addr : String

-- The values of flags that are not given.
unfoldable pub default_options : Options
default_options = record {
  flags = record {
    config_file = "";
    preset_name = "";
    duration = pos 0;
    nodes = pos 0;
    workers = pos 0;
    enable_chaos = true;
    enable_recovery = true;
  };
  list_presets = false;
  show_version = false;
  server_mode = false;
  server_addr = ":8080";
}

-- `fmt.Println`.
abbrev pub print : String → Logger → Logger
print text l = record l { out = l.out ++ str_append text "\n" ∷ [] }

abbrev pub print_lines : List String → Logger → Logger
print_lines [] l = l
print_lines (text ∷ texts) l = print_lines texts (print text l)

abbrev bool_text : Bool → String
bool_text true = "true"
bool_text false = "false"

-- `%d`.
abbrev int_text : ℤ → String
int_text (pos n) = decimal n
int_text (negsuc n) = str_append "-" (decimal (suc n))

unfoldable pub described_presets : List (String × String)
described_presets =
    ("basic", "カオスなしの基本負荷テスト")
    ∷ ("resilience", "ノードkillと復旧のテスト")
    ∷ ("latency", "レイテンシ注入テスト")
    ∷ ("stress", "高負荷ストレステスト")
    ∷ ("quick", "短時間の動作確認（デフォルト）")
    ∷ []

unfoldable pub print_presets : Logger → Logger
unfolding described_presets
print_presets l = print "使用例: chaos-kvs --preset quick" (
    print "" (
      print_lines
        (map (λ p. str_append "  " (str_append (padded 12 p.0) (str_append " " p.1)))
          described_presets)
        (print "" (print "利用可能なプリセットシナリオ:" l))))

-- The error is that of the server's Start.
unfoldable pub run_server : String → Option String → Listened → Logger → Logger × Option String
unfolding serve
run_server addr files listened l = (
  print_lines
      ("ChaosKVS - Web UI Server"
        ∷ "========================"
        ∷ str_append "Starting server on http://" addr
        ∷ "Press Ctrl+C to stop"
        ∷ ""
        ∷ [])
      l,
  serve files listened,
)

module _ (float : Float) where
  unfoldable pub banner : Formats float → Config float → List String
  unfolding decimal
  banner f c =
      "ChaosKVS - High-Concurrency In-Memory KVS Simulator"
      ∷ "===================================================="
      ∷ str_append "Scenario: " c.name
      ∷ str_append "Duration: " (f.duration_text c.duration)
      ∷ str_append "Nodes: " (
          str_append (int_text c.node_count) (str_append ", Workers: " (int_text c.client_workers)))
      ∷ str_append "Chaos: " (
          str_append (bool_text c.enable_chaos)
            (str_append ", Recovery: " (bool_text c.enable_recovery)))
      ∷ "===================================================="
      ∷ ""
      ∷ []

  -- The report is printed once the engine's run has come to a result.
  reported :
      Formats float
      → OrderOf (String × String)
      → Logger
      → EngineError ⊎ Result float
      → Logger × Option EngineError
  unfolding report
  reported f order l (inl e) = (l, some e)
  reported f order l (inr r) = (print (report float f order r) l, none)

  unfoldable pub run_scenario :
      Formats float
      → OrderOf (String × String)
      → Env float
      → Heap
      → Config float
      → Logger
      → Option (Logger × Option EngineError)
  unfolding banner reported run new
  run_scenario f order env h c l =
      Option.map (λ r. reported f order (print_lines (banner f c) l) r.2)
        (run float env h (new float c))

  -- What the program meets: the texts of errors, the time that a log line tells, the file that is read, the server.
  pub record Surroundings : Type 0 where
    pub formats : Formats float
    pub status_order : OrderOf (String × String)
    pub env : Env float
    pub heap : Heap
    pub timestamp : String
    pub build_error_text : BuildError → String
    pub engine_error_text : EngineError → String
    pub loaded : Config.Result (FileConfig float)
    pub parse_duration : String → Option ℤ
    pub to_lower : String → String
    pub version : String
    pub files_error : Option String
    pub listened : Listened

  -- `logger.Error` and `os.Exit(1)`, or the return.
  abbrev pub failed_with : Surroundings → String → String → Logger → Logger × ℕ
  unfolding error
  failed_with s what text l = (error s.timestamp "" (str_append what text) l, 1)

  exit_served : Surroundings → Logger × Option String → Logger × ℕ
  unfolding failed_with
  exit_served s (l, none) = (l, 0)
  exit_served s (l, some e) = failed_with s "サーバーエラー: " e l

  exit_run : Surroundings → Logger × Option EngineError → Logger × ℕ
  unfolding failed_with
  exit_run s (l, none) = (l, 0)
  exit_run s (l, some e) = failed_with s "シナリオ実行エラー: " (s.engine_error_text e) l

  exit_built : Surroundings → Logger → BuildError ⊎ Config float → Option (Logger × ℕ)
  unfolding failed_with exit_run run_scenario
  exit_built s l (inl e) = some (failed_with s "設定エラー: " (s.build_error_text e) l)
  exit_built s l (inr c) =
      Option.map (exit_run s) (run_scenario s.formats s.status_order s.env s.heap c l)

  -- What is on stdout, and the exit status; `none` is a panic.
  unfoldable pub main : Surroundings → Options → Logger → Option (Logger × ℕ)
  unfolding print_presets run_server exit_served exit_built build_scenario_config
  main s o l =
      if o.show_version
      then some (print (str_append "chaos-kvs version " s.version) l, 0)
      else if o.list_presets
      then some (print_presets l, 0)
      else if o.server_mode
      then some (exit_served s (run_server o.server_addr s.files_error s.listened l))
      else exit_built s l (build_scenario_config float s.parse_duration s.to_lower s.loaded o.flags)
