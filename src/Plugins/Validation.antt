-- ===== src/Plugins/Validation.antt =====
-- The check of a manifest, `validateManifest` of plugin-registry.service.svelte.ts.
use ig_desktop.Prelude.{ℕ, ◌+◌, String, Option, none, some, List, [], ◌∷◌, if◌then◌else◌, str_eq}
use ig_desktop.Js.Text.{join}
use ig_desktop.Js.Numerals.{show_ℕ}
use ig_desktop.Plugins.{PluginManifest, VisualizerCapability}

-- A required field that is missing or empty.
unfoldable pub missing : String → String → String → Option String
unfolding join
missing field value place =
    if str_eq value ""
    then some (join "" ("PluginError: " ∷ place ∷ " missing required field \"" ∷ field ∷ "\"" ∷ []))
    else none

abbrev pub first_error : Option String → Option String → Option String
first_error none o = o
first_error (some e) o = some e

-- The first error of a list of capabilities, each checked at its index.
unfoldable pub check_each {ℓ} : {K : Type ℓ} → (ℕ → K → Option String) → ℕ → List K → Option String
check_each check i [] = none
check_each check i (k ∷ ks) = first_error (check i k) (check_each check (i + 1) ks)

unfoldable pub check_list {ℓ} :
    {K : Type ℓ} → (ℕ → K → Option String) → Option (List K) → Option String
unfolding check_each
check_list check none = none
check_list check (some ks) = check_each check 0 ks

unfoldable pub plugin_place : String → String
unfolding join
plugin_place id = join "" ("Plugin '" ∷ id ∷ "'" ∷ [])

unfoldable pub item_place : String → String → ℕ → String
unfolding plugin_place show_ℕ
item_place id list i = join "" (plugin_place id ∷ " " ∷ list ∷ "[" ∷ show_ℕ i ∷ "]" ∷ [])

unfoldable pub named_place : String → String → ℕ → String → String
unfolding item_place
named_place id list i name = join "" (item_place id list i ∷ " (" ∷ name ∷ ")" ∷ [])

-- An item with a name and a component.
unfoldable pub check_item : String → String → String → ℕ → String → String → Option String
unfolding missing item_place named_place
check_item id list key i name component =
    first_error (missing key name (item_place id list i))
      (missing "component" component (named_place id list i name))

unfoldable pub check_visualizer : String → ℕ → VisualizerCapability → Option String
unfolding check_item
check_visualizer id i viz = first_error (check_item id "visualizers" "id" i viz.id viz.component) (
    first_error (missing "displayName" viz.display_name (named_place id "visualizers" i viz.id))
      (missing "icon" viz.icon (named_place id "visualizers" i viz.id)))

-- `validateManifest`: the message of the error that is thrown.
unfoldable pub validate_manifest : PluginManifest → Option String
unfolding missing check_list check_visualizer
validate_manifest m = first_error (missing "id" m.id "Manifest") (
    first_error (missing "name" m.name (plugin_place m.id)) (
      first_error (missing "version" m.version (plugin_place m.id)) (
        first_error (check_list (check_visualizer m.id) m.visualizers) (
          first_error
            (check_list (λ i p. check_item m.id "paramInputs" "id" i p.id p.component)
              m.param_inputs)
            (first_error
              (check_list (λ i t. check_item m.id "inspectorTabs" "id" i t.id t.component)
                m.inspector_tabs)
              (check_list (λ i r. check_item m.id "routes" "path" i r.path r.component)
                m.routes))))))
