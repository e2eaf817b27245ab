-- ===== src/Plugins/Outcomes.antt =====
-- What a removal and an external registration leave in the registry.
use ig_desktop.Prelude.{
  ◌≡◌, refl, ap, ◌∙◌, String, true, Option, none, some, List, [], ◌∷◌, if◌then◌else◌, str_eq,
  map_option, inl, inr, ◌⊎◌,
}
use ig_desktop.Prelude.Assoc.{lookup, has, lookup-delete, lookup-insert_self}
use ig_desktop.Plugins.{
  PluginManifest, PluginSource, PluginStatus, RegisteredPlugin, ready, failed, loading,
  VisualizerCapability,
}
use ig_desktop.Plugins.Registry.{
  PluginRegistry, set_plugin, set_capabilities, unregister, get, unless_invalid,
}
use ig_desktop.Plugins.Validation.{first_error, validate_manifest}
use ig_desktop.Plugins.External.{
  register_external, register_keyed, settle_external, load_external, load_from_cache, set_first,
  register_compiled, with_key, compile_each, components_to_compile, compiled_finders,
  compile_for_cache,
}
use ig_desktop.Plugins.Owned.{unless_of, lookup-remove_of}
use ig_desktop.Plugins.Invariant.{IsRegistry}

-- A plugin that is removed is gone, with each capability of it; every other plugin and capability is
-- left as it was.
pub unregister-removes :
    {C : Type 0} (id k : String) (r : PluginRegistry C)
    → IsRegistry r
    → has id r.plugins ≡ true
    → (get k (unregister id r) ≡ (if str_eq id k then none else get k r))
      × ((lookup k (unregister id r).visualizers ≡ unless_of id (lookup k r.visualizers))
          × ((lookup k (unregister id r).param_inputs ≡ unless_of id (lookup k r.param_inputs))
              × ((lookup k (unregister id r).inspector_tabs
                    ≡ unless_of id (lookup k r.inspector_tabs))
                  × ((lookup k (unregister id r).hooks ≡ unless_of id (lookup k r.hooks))
                      × (lookup k (unregister id r).routes ≡ unless_of id (lookup k r.routes))))))
unfolding unregister get
unregister-removes id k r h there = rw there (
  lookup-delete id k r.plugins,
  (
    lookup-remove_of id k r.visualizers h.visualizers.0,
    (
      lookup-remove_of id k r.param_inputs h.param_inputs.0,
      (
        lookup-remove_of id k r.inspector_tabs h.inspector_tabs.0,
        (lookup-remove_of id k r.hooks h.hooks.0, lookup-remove_of id k r.routes h.routes.0),
      ),
    ),
  ),
)

-- The status of a plugin and its error.
abbrev pub status_of :
    {C : Type 0} → String → PluginRegistry C → Option (PluginStatus × Option String)
status_of id r = map_option (λ p. (p.status, p.error)) (lookup id r.plugins)

-- What is recorded of a registration that threw an error or none.
abbrev pub recorded : Option String → PluginStatus × Option String
recorded none = (ready, none)
recorded (some e) = (failed, some e)

-- The status afterwards, by the fault of the manifest, the cache key and the error that is thrown.
abbrev pub expected :
    Option String
    → String ⊎ String
    → Option String
    → Option (PluginStatus × Option String)
    → Option (PluginStatus × Option String)
expected none (inl key) thrown before = some (recorded thrown)
expected none (inr e) thrown before = before
expected (some e) generated thrown before = before

module _ {C : Type 0} (m : PluginManifest) (source : PluginSource) (cache_key : String) where
  status_of-set_plugin :
      (id : String) (p : RegisteredPlugin) (r : PluginRegistry C)
      → status_of id (set_plugin id p r) ≡ some (p.status, p.error)
  unfolding set_plugin
  status_of-set_plugin id p r =
      ap (map_option (λ p. (p.status, p.error))) (lookup-insert_self id p r.plugins)

  status_of-set_first :
      (vs : Option (List VisualizerCapability)) (c : C) (r : PluginRegistry C)
      → (set_first m source cache_key vs c r).plugins ≡ r.plugins
  unfolding set_first
  status_of-set_first none c r = refl
  status_of-set_first (some []) c r = refl
  status_of-set_first (some (v ∷ vs)) c r = refl

  -- A registration that has not thrown yet is recorded as ready.
  abbrev IsReady : Option String × PluginRegistry C → Type 0
  IsReady (none, r) = status_of m.id r ≡ some (ready, none)
  IsReady (some e, r) = Unit

  settle_external-status :
      (o : Option String) (r : PluginRegistry C)
      → IsReady (o, r)
      → status_of m.id (settle_external m source cache_key (o, r)).1
        ≡ some (recorded (settle_external m source cache_key (o, r)).0)
  unfolding settle_external
  settle_external-status none r h = h
  settle_external-status (some e) r h =
      status_of-set_plugin m.id
        (record {
          manifest = m;
          source = source;
          status = failed;
          error = some e;
          cache_key = none;
        })
        r

  IsReady-none :
      (o : Option String) (r : PluginRegistry C)
      → status_of m.id r ≡ some (ready, none)
      → IsReady (o, r)
  IsReady-none none r h = h
  IsReady-none (some e) r h = tt

  register_compiled-IsReady :
      (syntax_error : String → String) (compile : String → String → C ⊎ String)
      (o : List (String × C) ⊎ String) (r : PluginRegistry C)
      → IsReady (register_compiled m source cache_key syntax_error compile o r)
  unfolding register_compiled set_capabilities
  register_compiled-IsReady syntax_error compile (inr e) r = tt
  register_compiled-IsReady syntax_error compile (inl compiled) r =
      let p = with_key m source cache_key ready in
      let (error, r') =
        set_capabilities syntax_error m source (compiled_finders compiled) (set_plugin m.id p r) in
      IsReady-none (first_error error (compile_for_cache compile m.id (components_to_compile m))) r'
        (status_of-set_plugin m.id p r)

  load_external-IsReady :
      (syntax_error : String → String) (compile : String → String → C ⊎ String)
      (cached : Option (C ⊎ String) ⊎ String) (r : PluginRegistry C)
      → IsReady (load_external m source cache_key syntax_error compile cached r)
  unfolding load_external load_from_cache register_compiled
  load_external-IsReady syntax_error compile (inr e) r = tt
  load_external-IsReady syntax_error compile (inl (some (inr e))) r = tt
  load_external-IsReady syntax_error compile (inl (some (inl c))) r =
      let r' = set_plugin m.id (with_key m source cache_key loading) r in
      ap (λ ps. map_option (λ p. (p.status, p.error)) (lookup m.id ps))
        (status_of-set_first m.visualizers c
          (set_plugin m.id (with_key m source cache_key ready) r'))
      ∙ status_of-set_plugin m.id (with_key m source cache_key ready) r'
  load_external-IsReady syntax_error compile (inl none) r =
      register_compiled-IsReady syntax_error compile
        (compile_each compile m.id (components_to_compile m) []) r

module _ {C : Type 0} (m : PluginManifest) (source : PluginSource) (syntax_error : String → String)
    (compile : String → String → C ⊎ String) (cached : Option (C ⊎ String) ⊎ String)
    (r : PluginRegistry C) where
  unless_invalid-status :
      (v : Option String) (generated : String ⊎ String)
      → status_of m.id
          (unless_invalid v r (register_keyed m source generated syntax_error compile cached r)).1
        ≡ expected v generated
            (unless_invalid v r (register_keyed m source generated syntax_error compile cached r)).0
            (status_of m.id r)
  unfolding register_keyed
  unless_invalid-status none (inl key) =
      let r' = set_plugin m.id (with_key m source key loading) r in
      let loaded = load_external m source key syntax_error compile cached r' in
      settle_external-status m source key loaded.0 loaded.1
        (load_external-IsReady m source key syntax_error compile cached r')
  unless_invalid-status none (inr e) = refl
  unless_invalid-status (some e) generated = refl

  -- An external plugin is recorded as ready if its registration throws nothing, and as failed, with
  -- the error, if it throws, the error of a route's pattern included; it is not left as loading. An
  -- invalid manifest and an error in the making of the cache key change no status.
  pub register_external-status :
      (generated : String ⊎ String)
      → status_of m.id (register_external m source generated syntax_error compile cached r).1
        ≡ expected
            (validate_manifest m)
            generated
            (register_external m source generated syntax_error compile cached r).0
            (status_of m.id r)
  unfolding register_external
  register_external-status generated = unless_invalid-status (validate_manifest m) generated
