-- ===== src/Plugins/Lookups.antt =====
-- The lookups of param inputs, inspector tabs, hooks, routes and settings
-- (plugin-registry.service.svelte.ts).
use ig_desktop.Prelude.{
  String, Bool, true, false, not, ◌&&◌, ◌||◌, Option, none, some, List, [], ◌∷◌, if◌then◌else◌,
  str_eq, any, keep, find, or_default,
}
use ig_desktop.Prelude.Int.{pos, ltb_ℤ}
use ig_desktop.Prelude.Assoc.{values}
use ig_desktop.Prelude.Sort.{sort}
use ig_desktop.Js.Text.{starts_with, ends_with, strip_last}
use ig_desktop.Plugins.{
  ParamInputCapability, InspectorTabCapability, PluginHookDefinition, RouteCapability,
  RegisteredPlugin, PluginSource, local,
}
use ig_desktop.Plugins.Registry.{Registered, PluginRegistry}
use ig_desktop.Plugins.Queries.{matches_pattern}
use ig_desktop.Routes.{RouteMatch, matched, no_match, route_threw, match_route}

-- What is read of a parameter; a missing hint is the empty text.
pub record GadgetParam : Type 0 where
  pub key : String
  pub type_hint : String
  pub value_hint : String

-- A list of the capability that is given and has an item that passes.
abbrev some_pass {ℓ} : {A : Type ℓ} → (A → Bool) → Option (List A) → Bool
some_pass p none = false
some_pass p (some xs) = any p xs

unfoldable pub takes_param : GadgetParam → ParamInputCapability → Bool
unfolding matches_pattern
takes_param param config =
    (not (str_eq param.value_hint "")
      && some_pass (matches_pattern param.value_hint) config.match_value_hint)
    || (not (str_eq param.type_hint "")
        && some_pass (λ t. str_eq t param.type_hint) config.match_type_hint)
    || some_pass (λ k. str_eq k param.key) config.match_key

-- `scopeMatches`.
unfoldable pub scope_matches : String → String → Bool
unfolding starts_with ends_with strip_last
scope_matches actual pattern =
    if str_eq pattern "*"
    then true
    else if ends_with ":*" pattern
    then starts_with (strip_last b'*' pattern) actual
    else str_eq actual pattern

unfoldable pub in_scope : List String → PluginHookDefinition → Bool
unfolding scope_matches
in_scope active hook =
    any (λ a. any (scope_matches a) (or_default hook.allowed_scopes ("*" ∷ []))) active

unfoldable pub is_available : Bool → Bool → InspectorTabCapability → Bool
is_available has_inspect developer_mode tab =
    if tab.developer_only && not developer_mode
    then false
    else if tab.requires_inspect && not has_inspect
    then false
    else true

abbrev is_local : PluginSource → Bool
is_local local = true
is_local s = false

abbrev is_nonempty {ℓ} : {A : Type ℓ} → Option (List A) → Bool
is_nonempty none = false
is_nonempty (some []) = false
is_nonempty (some (x ∷ xs)) = true

module _ {C : Type 0} where
  unfoldable pub get_param_input_for_param :
      GadgetParam → PluginRegistry C → Option (Registered C ParamInputCapability)
  unfolding takes_param values
  get_param_input_for_param param r =
      find (λ p. takes_param param p.capability) (values r.param_inputs)

  unfoldable pub tab_before :
      Registered C InspectorTabCapability → Registered C InspectorTabCapability → Bool
  tab_before a b =
      ltb_ℤ (or_default b.capability.priority (pos 0)) (or_default a.capability.priority (pos 0))

  unfoldable pub get_inspector_tabs_for_context :
      Bool → Bool → PluginRegistry C → List (Registered C InspectorTabCapability)
  unfolding sort tab_before is_available values
  get_inspector_tabs_for_context has_inspect developer_mode r =
      keep (λ t. is_available has_inspect developer_mode t.capability)
        (sort tab_before (values r.inspector_tabs))

  unfoldable pub hook_before :
      Registered C PluginHookDefinition → Registered C PluginHookDefinition → Bool
  hook_before a b =
      ltb_ℤ (or_default b.capability.priority (pos 0)) (or_default a.capability.priority (pos 0))

  -- The group of a hook id in `hooksByHookId`.
  unfoldable pub hooks_with_id :
      String → PluginRegistry C → List (Registered C PluginHookDefinition)
  unfolding sort hook_before values
  hooks_with_id hook_id r =
      sort hook_before (keep (λ h. str_eq h.capability.hook_id hook_id) (values r.hooks))

  unfoldable pub get_hooks_for_id :
      String → List String → PluginRegistry C → List (Registered C PluginHookDefinition)
  unfolding hooks_with_id in_scope
  get_hooks_for_id hook_id active r =
      keep (λ h. in_scope active h.capability) (hooks_with_id hook_id r)

  unfoldable pub get_routes_for_plugin :
      String → PluginRegistry C → List (Registered C RouteCapability)
  unfolding values
  get_routes_for_plugin plugin_id r = keep (λ t. str_eq t.manifest.id plugin_id) (values r.routes)

  -- The first route that matches; an exception of a matcher before it is thrown.
  unfoldable pub first_match :
      (String → Option String)
      → String
      → List (Registered C RouteCapability)
      → Option (Registered C RouteCapability) × RouteMatch
  unfolding match_route
  first_match decode path [] = (none, no_match)
  first_match decode path (t ∷ ts) = elim (match_route decode t.capability.path path) [
    | route_threw ↦ (none, route_threw)
    | matched params ↦ (some t, matched params)
    | no_match ↦ first_match decode path ts
  ]

  unfoldable pub get_route_for_path :
      (String → Option String)
      → String
      → String
      → PluginRegistry C
      → Option (Registered C RouteCapability) × RouteMatch
  unfolding get_routes_for_plugin first_match
  get_route_for_path decode plugin_id path r =
      first_match decode path (get_routes_for_plugin plugin_id r)

  unfoldable pub get_plugins_with_settings : PluginRegistry C → List RegisteredPlugin
  unfolding values
  get_plugins_with_settings r =
      keep (λ p. is_local p.source && is_nonempty p.manifest.settings) (values r.plugins)
