-- ===== src/Plugins/External.antt =====
-- External plugins: `registerExternal` and `loadFromCache` of plugin-registry.service.svelte.ts. The
-- compiler, the cache and the run of cached code are parameters: `compile` is called with an id and an
-- entrypoint and gives a component or the message of its error. `generated` is the cache key or the
-- message of the error that its making throws. `cached` is what the run of the cached plugin gives, if
-- the cache has it, or the message of the error that the cache throws. No other call of the registry
-- comes in between.
use ig_desktop.Prelude.{String, Option, none, some, List, [], ◌∷◌, ◌⊎◌, inl, inr}
use ig_desktop.Prelude.Assoc.{lookup, insert}
use ig_desktop.Js.Text.{join}
use ig_desktop.Plugins.{
  PluginManifest, PluginSource, PluginStatus, ready, loading, failed, RegisteredPlugin,
  VisualizerCapability,
}
use ig_desktop.Plugins.Registry.{
  PluginRegistry, Finders, set_plugin, set_capabilities, set_one, full_id, unless_invalid,
}
use ig_desktop.Plugins.Validation.{validate_manifest, first_error}

module _ {K : Type 0} (component id : K → String) where
  -- `componentsToCompile.set(...)` for the capabilities of one kind.
  unfoldable pub collect_each : List K → List (String × String) → List (String × String)
  unfolding insert
  collect_each [] files = files
  collect_each (k ∷ ks) files = collect_each ks (insert (component k) (id k) files)

  unfoldable pub collect : Option (List K) → List (String × String) → List (String × String)
  unfolding collect_each
  collect none files = files
  collect (some ks) files = collect_each ks files

abbrev prefixed : String → String → String
prefixed kind id = join "" (kind ∷ ":" ∷ id ∷ [])

-- The component files with the ids that they are compiled under.
unfoldable pub components_to_compile : PluginManifest → List (String × String)
unfolding collect join
components_to_compile m =
    collect (λ r. r.component) (λ r. prefixed "route" r.path) m.routes
      (collect (λ h. h.component) (λ h. prefixed "hook" h.hook_id) m.hooks
        (collect (λ t. t.component) (λ t. prefixed "tab" t.id) m.inspector_tabs
          (collect (λ p. p.component) (λ p. prefixed "param" p.id) m.param_inputs
            (collect (λ v. v.component) (λ v. prefixed "viz" v.id) m.visualizers []))))

module _ {C : Type 0} (compile : String → String → C ⊎ String) where
  -- The loop that compiles the components: the first error ends it.
  unfoldable pub compile_each :
      String → List (String × String) → List (String × C) → List (String × C) ⊎ String
  unfolding insert full_id
  compile_each plugin [] compiled = inl compiled
  compile_each plugin ((file, id) ∷ files) compiled = elim (compile (full_id plugin id) file) [
    | inl c ↦ compile_each plugin files (insert file c compiled)
    | inr e ↦ inr e
  ]

  -- The single component is compiled once more, for the cache.
  unfoldable pub compile_for_cache : String → List (String × String) → Option String
  compile_for_cache plugin ((file, id) ∷ []) = elim (compile plugin file) [
    | inl c ↦ none
    | inr e ↦ some e
  ]
  compile_for_cache plugin files = none

unfoldable pub compiled_finders : {C : Type 0} → List (String × C) → Finders C
unfolding lookup
compiled_finders compiled = record {
  visualizer = λ v. lookup v.component compiled;
  param_input = λ p. lookup p.component compiled;
  inspector_tab = λ t. lookup t.component compiled;
  hook = λ h. lookup h.component compiled;
  route = λ r. lookup r.component compiled;
}

module _ (m : PluginManifest) (source : PluginSource) (cache_key : String) where
  abbrev pub with_key : PluginStatus → RegisteredPlugin
  with_key status = record {
    manifest = m;
    source = source;
    status = status;
    error = none;
    cache_key = some cache_key;
  }

  module _ {C : Type 0} where
    -- After the compilation: the error that is thrown, and the registry.
    unfoldable pub register_compiled :
        (String → String)
        → (String → String → C ⊎ String)
        → List (String × C) ⊎ String
        → PluginRegistry C
        → Option String × PluginRegistry C
    unfolding set_plugin set_capabilities compiled_finders compile_for_cache components_to_compile
    register_compiled syntax_error compile (inr e) r = (some e, r)
    register_compiled syntax_error compile (inl compiled) r =
        let (error, r') =
          set_capabilities syntax_error m source (compiled_finders compiled)
            (set_plugin m.id (with_key ready) r) in
        (first_error error (compile_for_cache compile m.id (components_to_compile m)), r')

    -- `manifest.visualizers?.length`: the first visualizer is registered with what was exported.
    unfoldable pub set_first :
        Option (List VisualizerCapability) → C → PluginRegistry C → PluginRegistry C
    unfolding set_one full_id
    set_first none c r = r
    set_first (some []) c r = r
    set_first (some (v ∷ vs)) c r = record r {
      visualizers = set_one m source (full_id m.id v.id) v (some c) r.visualizers;
    }

    unfoldable pub load_from_cache :
        C ⊎ String → PluginRegistry C → Option String × PluginRegistry C
    unfolding set_plugin set_first
    load_from_cache (inr e) r = (some e, set_plugin m.id (with_key loading) r)
    load_from_cache (inl c) r = (
      none,
      set_first m.visualizers c
          (set_plugin m.id (with_key ready) (set_plugin m.id (with_key loading) r)),
    )

    -- The `catch` of `registerExternal`, which throws again.
    unfoldable pub settle_external :
        Option String × PluginRegistry C → Option String × PluginRegistry C
    unfolding set_plugin
    settle_external (none, r) = (none, r)
    settle_external (some e, r) = (
      some e,
      set_plugin m.id
          (record {
            manifest = m;
            source = source;
            status = failed;
            error = some e;
            cache_key = none;
          })
          r,
    )

    -- The body of the `try`.
    unfoldable pub load_external :
        (String → String)
        → (String → String → C ⊎ String)
        → Option (C ⊎ String) ⊎ String
        → PluginRegistry C
        → Option String × PluginRegistry C
    unfolding load_from_cache register_compiled compile_each components_to_compile
    load_external syntax_error compile (inr e) r = (some e, r)
    load_external syntax_error compile (inl (some exports)) r = load_from_cache exports r
    load_external syntax_error compile (inl none) r =
        register_compiled syntax_error compile
          (compile_each compile m.id (components_to_compile m) []) r

-- From the cache key on; an error of its making is not caught.
unfoldable pub register_keyed :
    {C : Type 0}
    → PluginManifest
    → PluginSource
    → String ⊎ String
    → (String → String)
    → (String → String → C ⊎ String)
    → Option (C ⊎ String) ⊎ String
    → PluginRegistry C
    → Option String × PluginRegistry C
unfolding load_external settle_external set_plugin
register_keyed m source (inr e) syntax_error compile cached r = (some e, r)
register_keyed m source (inl key) syntax_error compile cached r = settle_external m source key (
    load_external m source key syntax_error compile cached
      (set_plugin m.id (with_key m source key loading) r))

unfoldable pub register_external :
    {C : Type 0}
    → PluginManifest
    → PluginSource
    → String ⊎ String
    → (String → String)
    → (String → String → C ⊎ String)
    → Option (C ⊎ String) ⊎ String
    → PluginRegistry C
    → Option String × PluginRegistry C
unfolding validate_manifest register_keyed
register_external m source generated syntax_error compile cached r =
    unless_invalid (validate_manifest m) r
      (register_keyed m source generated syntax_error compile cached r)
