-- ===== src/Main/Program/Presets.antt =====
-- cmd/chaos-kvs/main.go, internal/api/server.go and internal/scenario/presets.go: the presets that are offered are those
-- that there are.
use chaos_kvs.Base.{
  ◌≡◌, refl, ap, ◌∙◌, List, [], map, String, String_eq, if◌then◌else◌, some, none, sym,
}
use mathlib.Core.Option
use chaos_kvs.Metrics.{Float}
use chaos_kvs.Scenario.{get_preset, list_presets}
use chaos_kvs.Scenario.Presets.{among, get_preset_lem}
use chaos_kvs.Api.{get, Response, handle_presets, preset_list, preset_infos}
use chaos_kvs.Main.Program.{described_presets}

-- The names that a response offers.
abbrev pub offered_names : Response → List String
offered_names (preset_list infos) = map (λ p. p.name) infos
offered_names _ = []

-- The API and the command line both offer the names of ListPresets, in its order, and GetPreset finds a preset of that
-- name if and only if the name is offered.
pub offered_presets :
    (float : Float) (name : String)
    → (map (λ p. p.0) described_presets ≡ list_presets)
      × (offered_names (handle_presets get) ≡ list_presets)
      × (Option.map (λ c. c.name) (get_preset float name)
          ≡ (if among name (offered_names (handle_presets get)) then some name else none))
offered_presets float name =
    let cli : map (λ p. p.0) described_presets ≡ list_presets =
      unfold described_presets list_presets in refl in
    let api : offered_names (handle_presets get) ≡ list_presets =
      unfold handle_presets preset_infos list_presets in refl in
    (
      cli,
      api,
      get_preset_lem float name
          ∙ ap (λ names. if among name names then some name else none) (sym api),
    )
