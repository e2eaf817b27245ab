-- ===== src/Plugins/Registry.antt =====
-- The registry of plugins (frontend/src/lib/services/plugin-registry.service.svelte.ts): its maps and
-- what changes them. `C` is the type of the components. `syntax_error` gives the text of the error that
-- `RegExp` throws for the pattern of a route.
use ig_desktop.Prelude.{ℕ, String, Option, none, some, List, [], ◌∷◌, if◌then◌else◌, str_eq, length}
use ig_desktop.Prelude.Assoc.{lookup, insert, delete, has}
use ig_desktop.Js.Text.{join}
use ig_desktop.Plugins.Validation.{validate_manifest}
use ig_desktop.Routes.{create_route_matcher}
use ig_desktop.Plugins.{
  PluginManifest, PluginSource, builtin, PluginStatus, ready, RegisteredPlugin,
  VisualizerCapability, ParamInputCapability, InspectorTabCapability, PluginHookDefinition,
  RouteCapability,
}

-- A capability `K` of a plugin with its component: RegisteredVisualizer and the four others. The
-- matcher of a route is computed from its path where it is used.
pub record Registered (C K : Type 0) : Type 0 where
  pub id : String
  pub manifest : PluginManifest
  pub capability : K
  pub source : PluginSource
  pub component : C

pub record PluginRegistry (C : Type 0) : Type 0 where
  pub plugins : List (String × RegisteredPlugin)
  pub visualizers : List (String × Registered C VisualizerCapability)
  pub param_inputs : List (String × Registered C ParamInputCapability)
  pub inspector_tabs : List (String × Registered C InspectorTabCapability)
  pub hooks : List (String × Registered C PluginHookDefinition)
  pub routes : List (String × Registered C RouteCapability)

-- The components of a built-in plugin.
pub record BuiltinComponents (C : Type 0) : Type 0 where
  pub visualizers : Option (List (String × C))
  pub param_inputs : Option (List (String × C))
  pub inspector_tabs : Option (List (String × C))
  pub hooks : Option (List (String × C))
  pub routes : Option (List (String × C))

-- `${manifest.id}:${id}`, and the id of a route.
unfoldable pub full_id : String → String → String
unfolding join
full_id plugin id = join "" (plugin ∷ ":" ∷ id ∷ [])

unfoldable pub route_id : String → String → String
unfolding join
route_id plugin path = join "" (plugin ∷ ":route:" ∷ path ∷ [])

module _ {C K : Type 0} (manifest : PluginManifest) (source : PluginSource) where
  -- A capability is registered under `key` if its component is there, and skipped otherwise.
  unfoldable pub set_one :
      String → K → Option C → List (String × Registered C K) → List (String × Registered C K)
  unfolding insert
  set_one key k none entries = entries
  set_one key k (some c) entries =
      insert key
        (record { id = key; manifest = manifest; capability = k; source = source; component = c })
        entries

  unfoldable pub set_each :
      (K → String)
      → (K → Option C)
      → List K
      → List (String × Registered C K)
      → List (String × Registered C K)
  unfolding set_one
  set_each key component_of [] entries = entries
  set_each key component_of (k ∷ ks) entries =
      set_each key component_of ks (set_one (key k) k (component_of k) entries)

  -- Nothing is done for a manifest without capabilities of the kind.
  unfoldable pub set_list :
      (K → String)
      → (K → Option C)
      → Option (List K)
      → List (String × Registered C K)
      → List (String × Registered C K)
  unfolding set_each
  set_list key component_of none entries = entries
  set_list key component_of (some ks) entries = set_each key component_of ks entries

-- The error of `createRouteMatcher(route.path)`, where the route has a component.
unfoldable pub route_error :
    {C : Type 0} → (String → String) → Option C → RouteCapability → Option String
unfolding create_route_matcher
route_error syntax_error none route = none
route_error syntax_error (some c) route = elim (create_route_matcher route.path).pieces [
  | none ↦ some (syntax_error route.path)
  | some pieces ↦ none
]

module _ {C : Type 0} (syntax_error : String → String) (manifest : PluginManifest)
    (source : PluginSource) (component_of : RouteCapability → Option C) where
  -- The loop that registers routes: an error of a matcher ends it.
  unfoldable pub set_routes :
      List RouteCapability
      → List (String × Registered C RouteCapability)
      → Option String × List (String × Registered C RouteCapability)
  unfolding set_one route_id route_error
  set_routes [] entries = (none, entries)
  set_routes (route ∷ routes) entries = elim (route_error syntax_error (component_of route) route) [
    | some e ↦ (some e, entries)
    | none ↦ set_routes routes (
        set_one manifest source (route_id manifest.id route.path) route (component_of route)
          entries)
  ]

  unfoldable pub set_route_list :
      Option (List RouteCapability)
      → List (String × Registered C RouteCapability)
      → Option String × List (String × Registered C RouteCapability)
  unfolding set_routes
  set_route_list none entries = (none, entries)
  set_route_list (some routes) entries = set_routes routes entries

-- What each kind of capability finds its component by.
pub record Finders (C : Type 0) : Type 0 where
  pub visualizer : VisualizerCapability → Option C
  pub param_input : ParamInputCapability → Option C
  pub inspector_tab : InspectorTabCapability → Option C
  pub hook : PluginHookDefinition → Option C
  pub route : RouteCapability → Option C

abbrev pub plain : PluginManifest → PluginSource → PluginStatus → RegisteredPlugin
plain m source status = record {
  manifest = m;
  source = source;
  status = status;
  error = none;
  cache_key = none;
}

-- An invalid manifest throws, and nothing is changed.
abbrev pub unless_invalid :
    {C : Type 0}
    → Option String
    → PluginRegistry C
    → Option String × PluginRegistry C
    → Option String × PluginRegistry C
unless_invalid none r result = result
unless_invalid (some e) r result = (some e, r)

module _ {C : Type 0} where
  -- The five loops that register the capabilities of a manifest, and the error that ends the last.
  unfoldable pub set_capabilities :
      (String → String)
      → PluginManifest
      → PluginSource
      → Finders C
      → PluginRegistry C
      → Option String × PluginRegistry C
  unfolding set_list set_route_list full_id
  set_capabilities syntax_error m source find r =
      let (error, routes) = set_route_list syntax_error m source find.route m.routes r.routes in
      (
        error,
        record r {
          visualizers =
              set_list m source (λ v. full_id m.id v.id) find.visualizer m.visualizers
                r.visualizers;
          param_inputs =
              set_list m source (λ p. full_id m.id p.id) find.param_input m.param_inputs
                r.param_inputs;
          inspector_tabs =
              set_list m source (λ t. full_id m.id t.id) find.inspector_tab m.inspector_tabs
                r.inspector_tabs;
          hooks = set_list m source (λ h. full_id m.id h.hook_id) find.hook m.hooks r.hooks;
          routes = routes;
        },
      )

  unfoldable pub set_plugin : String → RegisteredPlugin → PluginRegistry C → PluginRegistry C
  unfolding insert
  set_plugin id plugin r = record r { plugins = insert id plugin r.plugins }

  -- `components.visualizers[viz.id]` and its like.
  unfoldable pub component_in : Option (List (String × C)) → String → Option C
  unfolding lookup
  component_in none key = none
  component_in (some components) key = lookup key components

  unfoldable pub builtin_finders : BuiltinComponents C → Finders C
  unfolding component_in
  builtin_finders components = record {
    visualizer = λ v. component_in components.visualizers v.id;
    param_input = λ p. component_in components.param_inputs p.id;
    inspector_tab = λ t. component_in components.inspector_tabs t.id;
    hook = λ h. component_in components.hooks h.hook_id;
    route = λ r. component_in components.routes r.path;
  }

  -- The message of the error that is thrown, and the registry.
  unfoldable pub register_builtin_plugin :
      (String → String)
      → PluginManifest
      → BuiltinComponents C
      → PluginRegistry C
      → Option String × PluginRegistry C
  unfolding validate_manifest set_plugin set_capabilities builtin_finders
  register_builtin_plugin syntax_error m components r = unless_invalid (validate_manifest m) r (
      set_capabilities syntax_error m builtin (builtin_finders components)
        (set_plugin m.id (plain m builtin ready) r))

  -- The loop that removes the capabilities of a plugin.
  unfoldable pub remove_of :
      {K : Type 0} → String → List (String × Registered C K) → List (String × Registered C K)
  remove_of id [] = []
  remove_of id ((key, v) ∷ entries) =
      let rest = remove_of id entries in if str_eq v.manifest.id id then rest else (key, v) ∷ rest

  unfoldable pub unregister : String → PluginRegistry C → PluginRegistry C
  unfolding has remove_of delete
  unregister id r =
      if has id r.plugins
      then record {
        plugins = delete id r.plugins;
        visualizers = remove_of id r.visualizers;
        param_inputs = remove_of id r.param_inputs;
        inspector_tabs = remove_of id r.inspector_tabs;
        hooks = remove_of id r.hooks;
        routes = remove_of id r.routes;
      }
      else r

  unfoldable pub get : String → PluginRegistry C → Option RegisteredPlugin
  unfolding lookup
  get id r = lookup id r.plugins

  unfoldable pub with_status :
      String
      → PluginStatus
      → Option String
      → Option RegisteredPlugin
      → PluginRegistry C
      → PluginRegistry C
  unfolding set_plugin
  with_status id status error none r = r
  with_status id status error (some p) r =
      set_plugin id (record p { status = status; error = error }) r

  unfoldable pub set_status :
      String → PluginStatus → Option String → PluginRegistry C → PluginRegistry C
  unfolding with_status get
  set_status id status error r = with_status id status error (get id r) r

  abbrev pub clear : PluginRegistry C
  clear = record {
    plugins = [];
    visualizers = [];
    param_inputs = [];
    inspector_tabs = [];
    hooks = [];
    routes = [];
  }

  -- The number of visualizers, param inputs, inspector tabs, hooks, routes and plugins.
  unfoldable pub get_stats : PluginRegistry C → List ℕ
  get_stats r =
      length r.visualizers
      ∷ length r.param_inputs
      ∷ length r.inspector_tabs
      ∷ length r.hooks
      ∷ length r.routes
      ∷ length r.plugins
      ∷ []
