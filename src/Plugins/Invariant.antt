-- ===== src/Plugins/Invariant.antt =====
-- The maps of the registry belong together, whatever is called.
use mathlib.Core.Path.{subst}
use ig_desktop.Prelude.{
  ◌≡◌, refl, sym, String, true, Option, none, some, List, [], ◌∷◌, Bool-cases, inl, inr, ◌⊎◌,
  Option-cases,
}
use ig_desktop.Prelude.Assoc.{
  lookup, has, IsMap, insert-IsMap, delete-IsMap, AllEntries, AllEntries-insert, AllEntries-delete,
  AllEntries-lookup,
}
use ig_desktop.Plugins.{
  PluginManifest, PluginSource, PluginStatus, RegisteredPlugin, builtin, ready, loading, failed,
  VisualizerCapability,
}
use ig_desktop.Plugins.Registry.{
  PluginRegistry, BuiltinComponents, Finders, set_capabilities, set_plugin, register_builtin_plugin,
  unregister, set_status, with_status, get, clear, unless_invalid, plain, full_id, builtin_finders,
}
use ig_desktop.Plugins.Validation.{validate_manifest}
use ig_desktop.Plugins.External.{
  register_external, register_keyed, settle_external, load_external, load_from_cache, set_first,
  register_compiled, with_key, compiled_finders, compile_each, components_to_compile,
}
use ig_desktop.Plugins.Owned.{
  Owned, set_one-Owned, has-insert_self, insert-Owned, set_list-Owned, set_route_list-Owned,
  remove_of-Owned,
}

-- A plugin stands under its id, and so do the capabilities, each of which has its plugin.
pub record IsRegistry {C : Type 0} (r : PluginRegistry C) : Type 0 where
  pub unique : IsMap r.plugins
  pub named : AllEntries (λ k p. p.manifest.id ≡ k) r.plugins
  pub visualizers : Owned r.plugins r.visualizers
  pub param_inputs : Owned r.plugins r.param_inputs
  pub inspector_tabs : Owned r.plugins r.inspector_tabs
  pub hooks : Owned r.plugins r.hooks
  pub routes : Owned r.plugins r.routes

module _ {C : Type 0} where
  pub clear-IsRegistry : IsRegistry (clear {C = C})
  clear-IsRegistry = record {
    unique = tt;
    named = tt;
    visualizers = (tt, tt);
    param_inputs = (tt, tt);
    inspector_tabs = (tt, tt);
    hooks = (tt, tt);
    routes = (tt, tt);
  }

  set_plugin-IsRegistry :
      (id : String) (p : RegisteredPlugin) (r : PluginRegistry C)
      → p.manifest.id ≡ id
      → IsRegistry r
      → IsRegistry (set_plugin id p r)
  unfolding set_plugin
  set_plugin-IsRegistry id p r e h = record {
    unique = insert-IsMap id p r.plugins h.unique;
    named = AllEntries-insert (λ k p. p.manifest.id ≡ k) id p r.plugins e h.named;
    visualizers = insert-Owned id p r.plugins r.visualizers h.visualizers;
    param_inputs = insert-Owned id p r.plugins r.param_inputs h.param_inputs;
    inspector_tabs = insert-Owned id p r.plugins r.inspector_tabs h.inspector_tabs;
    hooks = insert-Owned id p r.plugins r.hooks h.hooks;
    routes = insert-Owned id p r.plugins r.routes h.routes;
  }

  set_capabilities-IsRegistry :
      (syntax_error : String → String) (m : PluginManifest) (source : PluginSource)
      (find : Finders C) (r : PluginRegistry C)
      → has m.id r.plugins ≡ true
      → IsRegistry r
      → IsRegistry (set_capabilities syntax_error m source find r).1
  unfolding set_capabilities
  set_capabilities-IsRegistry syntax_error m source find r there h = record {
    unique = h.unique;
    named = h.named;
    visualizers =
        set_list-Owned m source r.plugins there (λ v. full_id m.id v.id) find.visualizer
          m.visualizers r.visualizers h.visualizers;
    param_inputs =
        set_list-Owned m source r.plugins there (λ p. full_id m.id p.id) find.param_input
          m.param_inputs r.param_inputs h.param_inputs;
    inspector_tabs =
        set_list-Owned m source r.plugins there (λ t. full_id m.id t.id) find.inspector_tab
          m.inspector_tabs r.inspector_tabs h.inspector_tabs;
    hooks =
        set_list-Owned m source r.plugins there (λ t. full_id m.id t.hook_id) find.hook m.hooks
          r.hooks h.hooks;
    routes =
        set_route_list-Owned syntax_error m source find.route r.plugins there m.routes r.routes
          h.routes;
  }

  has-set_plugin :
      (id : String) (p : RegisteredPlugin) (r : PluginRegistry C)
      → has id (set_plugin id p r).plugins ≡ true
  unfolding set_plugin
  has-set_plugin id p r = has-insert_self id p r.plugins

  unless_invalid-IsRegistry :
      (v : Option String) (r : PluginRegistry C) (result : Option String × PluginRegistry C)
      → IsRegistry r
      → IsRegistry result.1
      → IsRegistry (unless_invalid v r result).1
  unless_invalid-IsRegistry none r result h k = k
  unless_invalid-IsRegistry (some e) r result h k = h

  register_builtin_plugin-IsRegistry :
      (syntax_error : String → String) (m : PluginManifest) (components : BuiltinComponents C)
      (r : PluginRegistry C)
      → IsRegistry r
      → IsRegistry (register_builtin_plugin syntax_error m components r).1
  unfolding register_builtin_plugin
  register_builtin_plugin-IsRegistry syntax_error m components r h =
      let p = plain m builtin ready in
      let r' = set_plugin m.id p r in
      let result = set_capabilities syntax_error m builtin (builtin_finders components) r' in
      unless_invalid-IsRegistry (validate_manifest m) r result h (
        set_capabilities-IsRegistry syntax_error m builtin (builtin_finders components) r'
          (has-set_plugin m.id p r) (set_plugin-IsRegistry m.id p r refl h))

  unregister-IsRegistry :
      (id : String) (r : PluginRegistry C) → IsRegistry r → IsRegistry (unregister id r)
  unfolding unregister
  unregister-IsRegistry id r h = elim (Bool-cases (has id r.plugins)) [
    | inl b ↦ rw b (record {
      unique = delete-IsMap id r.plugins h.unique;
      named = AllEntries-delete (λ k p. p.manifest.id ≡ k) id r.plugins h.named;
      visualizers = remove_of-Owned id r.plugins r.visualizers h.visualizers;
      param_inputs = remove_of-Owned id r.plugins r.param_inputs h.param_inputs;
      inspector_tabs = remove_of-Owned id r.plugins r.inspector_tabs h.inspector_tabs;
      hooks = remove_of-Owned id r.plugins r.hooks h.hooks;
      routes = remove_of-Owned id r.plugins r.routes h.routes;
    })
    | inr b ↦ rw b h
  ]

  set_status-IsRegistry :
      (id : String) (status : PluginStatus) (error : Option String) (r : PluginRegistry C)
      → IsRegistry r
      → IsRegistry (set_status id status error r)
  unfolding set_status get
  set_status-IsRegistry id status error r h = elim (Option-cases (lookup id r.plugins)) [
    | inl e ↦
        subst (λ o. IsRegistry (with_status id status error o r)) (sym e) (unfold with_status in h)
    | inr (p, e) ↦
        subst (λ o. IsRegistry (with_status id status error o r)) (sym e)
          (unfold with_status in
            set_plugin-IsRegistry id (record p { status = status; error = error }) r
              (AllEntries-lookup (λ k p. p.manifest.id ≡ k) id p r.plugins e h.named) h)
  ]

  set_first-IsRegistry :
      (m : PluginManifest) (source : PluginSource) (cache_key : String)
      (vs : Option (List VisualizerCapability)) (c : C) (r : PluginRegistry C)
      → has m.id r.plugins ≡ true
      → IsRegistry r
      → IsRegistry (set_first m source cache_key vs c r)
  unfolding set_first
  set_first-IsRegistry m source cache_key none c r there h = h
  set_first-IsRegistry m source cache_key (some []) c r there h = h
  set_first-IsRegistry m source cache_key (some (v ∷ vs)) c r there h = record {
    unique = h.unique;
    named = h.named;
    visualizers =
        set_one-Owned m source r.plugins there (full_id m.id v.id) v (some c) r.visualizers
          h.visualizers;
    param_inputs = h.param_inputs;
    inspector_tabs = h.inspector_tabs;
    hooks = h.hooks;
    routes = h.routes;
  }

  module _ (m : PluginManifest) (source : PluginSource) (cache_key : String) where
    load_from_cache-IsRegistry :
        (exports : C ⊎ String) (r : PluginRegistry C)
        → IsRegistry r
        → IsRegistry (load_from_cache m source cache_key exports r).1
    unfolding load_from_cache
    load_from_cache-IsRegistry (inr e) r h =
        set_plugin-IsRegistry m.id (with_key m source cache_key loading) r refl h
    load_from_cache-IsRegistry (inl c) r h =
        let r' = set_plugin m.id (with_key m source cache_key loading) r in
        set_first-IsRegistry m source cache_key m.visualizers c
          (set_plugin m.id (with_key m source cache_key ready) r')
          (has-set_plugin m.id (with_key m source cache_key ready) r')
          (set_plugin-IsRegistry m.id (with_key m source cache_key ready) r' refl
            (set_plugin-IsRegistry m.id (with_key m source cache_key loading) r refl h))

    register_compiled-IsRegistry :
        (syntax_error : String → String) (compile : String → String → C ⊎ String)
        (o : List (String × C) ⊎ String) (r : PluginRegistry C)
        → IsRegistry r
        → IsRegistry (register_compiled m source cache_key syntax_error compile o r).1
    unfolding register_compiled
    register_compiled-IsRegistry syntax_error compile (inr e) r h = h
    register_compiled-IsRegistry syntax_error compile (inl compiled) r h =
        let p = with_key m source cache_key ready in
        set_capabilities-IsRegistry syntax_error m source (compiled_finders compiled)
          (set_plugin m.id p r) (has-set_plugin m.id p r) (set_plugin-IsRegistry m.id p r refl h)

    settle_external-IsRegistry :
        (o : Option String) (r : PluginRegistry C)
        → IsRegistry r
        → IsRegistry (settle_external m source cache_key (o, r)).1
    unfolding settle_external
    settle_external-IsRegistry none r h = h
    settle_external-IsRegistry (some e) r h =
        set_plugin-IsRegistry m.id
          (record {
            manifest = m;
            source = source;
            status = failed;
            error = some e;
            cache_key = none;
          })
          r refl h

    load_external-IsRegistry :
        (syntax_error : String → String) (compile : String → String → C ⊎ String)
        (cached : Option (C ⊎ String) ⊎ String) (r : PluginRegistry C)
        → IsRegistry r
        → IsRegistry (load_external m source cache_key syntax_error compile cached r).1
    unfolding load_external
    load_external-IsRegistry syntax_error compile (inr e) r h = h
    load_external-IsRegistry syntax_error compile (inl (some exports)) r h =
        load_from_cache-IsRegistry exports r h
    load_external-IsRegistry syntax_error compile (inl none) r h =
        register_compiled-IsRegistry syntax_error compile
          (compile_each compile m.id (components_to_compile m) []) r h

  register_keyed-IsRegistry :
      (m : PluginManifest) (source : PluginSource) (generated : String ⊎ String)
      (syntax_error : String → String) (compile : String → String → C ⊎ String)
      (cached : Option (C ⊎ String) ⊎ String) (r : PluginRegistry C)
      → IsRegistry r
      → IsRegistry (register_keyed m source generated syntax_error compile cached r).1
  unfolding register_keyed
  register_keyed-IsRegistry m source (inr e) syntax_error compile cached r h = h
  register_keyed-IsRegistry m source (inl key) syntax_error compile cached r h =
      let r' = set_plugin m.id (with_key m source key loading) r in
      let loaded = load_external m source key syntax_error compile cached r' in
      settle_external-IsRegistry m source key loaded.0 loaded.1 (
        load_external-IsRegistry m source key syntax_error compile cached r'
          (set_plugin-IsRegistry m.id (with_key m source key loading) r refl h))

  register_external-IsRegistry :
      (m : PluginManifest) (source : PluginSource) (generated : String ⊎ String)
      (syntax_error : String → String) (compile : String → String → C ⊎ String)
      (cached : Option (C ⊎ String) ⊎ String) (r : PluginRegistry C)
      → IsRegistry r
      → IsRegistry (register_external m source generated syntax_error compile cached r).1
  unfolding register_external
  register_external-IsRegistry m source generated syntax_error compile cached r h =
      unless_invalid-IsRegistry (validate_manifest m) r
        (register_keyed m source generated syntax_error compile cached r) h
        (register_keyed-IsRegistry m source generated syntax_error compile cached r h)

-- A registry that the calls can lead to.
pub data IsReachable {C : Type 0} : PluginRegistry C → Type 0 where
  cleared : IsReachable clear
  with_builtin :
      (syntax_error : String → String) (m : PluginManifest) (components : BuiltinComponents C)
      (r : PluginRegistry C)
      → IsReachable r
      → IsReachable (register_builtin_plugin syntax_error m components r).1
  with_external :
      (m : PluginManifest) (source : PluginSource) (generated : String ⊎ String)
      (syntax_error : String → String) (compile : String → String → C ⊎ String)
      (cached : Option (C ⊎ String) ⊎ String) (r : PluginRegistry C)
      → IsReachable r
      → IsReachable (register_external m source generated syntax_error compile cached r).1
  without : (id : String) (r : PluginRegistry C) → IsReachable r → IsReachable (unregister id r)
  status_set :
      (id : String) (status : PluginStatus) (error : Option String) (r : PluginRegistry C)
      → IsReachable r
      → IsReachable (set_status id status error r)

-- Whatever plugins are registered, loaded, removed and given a status, in any order, with registrations
-- that an error ends midway among them: each plugin stands under its id, each capability under its own, and the plugin of each capability is registered.
pub reachable-IsRegistry : {C : Type 0} (r : PluginRegistry C) → IsReachable r → IsRegistry r
reachable-IsRegistry _ cleared = clear-IsRegistry
reachable-IsRegistry _ (with_builtin syntax_error m components r h) =
    register_builtin_plugin-IsRegistry syntax_error m components r (reachable-IsRegistry r h)
reachable-IsRegistry _ (with_external m source generated syntax_error compile cached r h) =
    register_external-IsRegistry m source generated syntax_error compile cached r
      (reachable-IsRegistry r h)
reachable-IsRegistry _ (without id r h) = unregister-IsRegistry id r (reachable-IsRegistry r h)
reachable-IsRegistry _ (status_set id status error r h) =
    set_status-IsRegistry id status error r (reachable-IsRegistry r h)
