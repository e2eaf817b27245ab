-- ===== src/Plugins/Tests.antt =====
-- The registry on small plugins; a component is a number.
use ig_desktop.Prelude.{
  ℕ, ◌≡◌, refl, String, true, false, none, some, [], ◌∷◌, ◌⊎◌, inl, inr, if◌then◌else◌, str_eq,
  keep,
}
use ig_desktop.Prelude.Int.{pos}
use ig_desktop.Prelude.Assoc.{lookup, has, values}
use ig_desktop.Routes.{is_special}
use ig_desktop.Plugins.{PluginManifest, VisualizerCapability, always, local}
use ig_desktop.Plugins.Registry.{
  PluginRegistry, BuiltinComponents, register_builtin_plugin, unregister, get, clear, get_stats,
}
use ig_desktop.Plugins.Validation.{validate_manifest}
use ig_desktop.Plugins.External.{register_external}
use ig_desktop.Plugins.Queries.{
  matches_pattern, Datasource, is_applicable, get_visualizers_for_datasource,
  get_data_processors_for_stage,
}
use ig_desktop.Plugins.Owned.{unless_of}
use ig_desktop.Plugins.Invariant.{
  IsReachable, cleared, with_builtin, with_external, reachable-IsRegistry, IsRegistry,
}
use ig_desktop.Plugins.Outcomes.{unregister-removes, register_external-status, status_of, expected}
use ig_desktop.Plugins.Lists.{
  get_visualizers_for_datasource-IsSorted, get_data_processors_for_stage-IsSorted, Falls, Rises,
  Same, priority_of, order_of, is_for, all_processors,
}

-- A wildcard in the middle does not keep its two ends apart, and one at both ends is not understood.
overlapping_ends : matches_pattern "ab" "ab*b" ≡ true
unfolding matches_pattern
overlapping_ends = refl

wildcards_at_both_ends : matches_pattern "a.name.b" "*name*" ≡ false
unfolding matches_pattern
wildcards_at_both_ends = refl

abbrev table : VisualizerCapability
table = record {
  id = "table";
  display_name = "Table";
  icon = "i";
  component = "Table.svelte";
  applicable_when = always;
  priority = some (pos 2);
}

abbrev manifest : String → String → PluginManifest
manifest id path = record {
  id = id;
  name = "n";
  version = "1";
  visualizers = some (table ∷ []);
  data_processors =
      some (record { id = "d"; stage = "pre-buffer"; order = none; applies_to = none } ∷ []);
  param_inputs = none;
  inspector_tabs = none;
  hooks = none;
  routes = some (record { path = path; component = "Demo.svelte" } ∷ []);
  settings = none;
}

abbrev components : BuiltinComponents ℕ
components = record {
  visualizers = some (("table", 7) ∷ []);
  param_inputs = none;
  inspector_tabs = none;
  hooks = none;
  routes = some (("/demo", 8) ∷ ("/a[b", 9) ∷ []);
}

-- The text of the error for a pattern that is no expression.
abbrev syntax_error : String → String
syntax_error path = "Invalid regular expression"

-- The second component does not compile.
abbrev compile : String → String → ℕ ⊎ String
compile id file = if str_eq file "Demo.svelte" then inr "no" else inl 3

abbrev with_one : PluginRegistry ℕ
with_one = (register_builtin_plugin syntax_error (manifest "b" "/demo") components clear).1

abbrev with_two : PluginRegistry ℕ
with_two =
    (register_external (manifest "e" "/demo") local (inl "k") syntax_error compile
      (inl (some (inl 5))) with_one).1

-- The registration is aborted at the route, with its visualizer in the maps.
abbrev with_three : PluginRegistry ℕ
with_three = (register_builtin_plugin syntax_error (manifest "c" "/a[b") components with_two).1

-- A plugin from the cache has only its first visualizer.
counts : get_stats with_two ≡ 2 ∷ 0 ∷ 0 ∷ 0 ∷ 1 ∷ 2 ∷ []
unfolding register_builtin_plugin register_external get_stats is_special
counts = refl

aborted : get_stats with_three ≡ 3 ∷ 0 ∷ 0 ∷ 0 ∷ 1 ∷ 3 ∷ []
unfolding register_builtin_plugin register_external get_stats is_special
aborted = refl

is_reachable : IsReachable with_two
is_reachable =
    with_external (manifest "e" "/demo") local (inl "k") syntax_error compile (inl (some (inl 5)))
      with_one (with_builtin syntax_error (manifest "b" "/demo") components clear cleared)

reachable-IsRegistry_example : IsRegistry with_three
reachable-IsRegistry_example =
    reachable-IsRegistry with_three
      (with_builtin syntax_error (manifest "c" "/a[b") components with_two is_reachable)

unregister-removes_example :
    (get "b:table" (unregister "b" with_two)
      ≡ (if str_eq "b" "b:table" then none else get "b:table" with_two))
    × ((lookup "b:table" (unregister "b" with_two).visualizers
          ≡ unless_of "b" (lookup "b:table" with_two.visualizers))
        × ((lookup "b:table" (unregister "b" with_two).param_inputs
              ≡ unless_of "b" (lookup "b:table" with_two.param_inputs))
            × ((lookup "b:table" (unregister "b" with_two).inspector_tabs
                  ≡ unless_of "b" (lookup "b:table" with_two.inspector_tabs))
                × ((lookup "b:table" (unregister "b" with_two).hooks
                      ≡ unless_of "b" (lookup "b:table" with_two.hooks))
                    × (lookup "b:table" (unregister "b" with_two).routes
                        ≡ unless_of "b" (lookup "b:table" with_two.routes))))))
unfolding register_builtin_plugin register_external has
unregister-removes_example =
    unregister-removes "b" "b:table" with_two (reachable-IsRegistry with_two is_reachable) refl

-- All components compile, and the route has no matcher.
abbrev compile_all : String → String → ℕ ⊎ String
compile_all id file = inl 3

register_external-status_example :
    status_of "e"
      (register_external
        (manifest "e" "/a[b")
        local
        (inl "k")
        syntax_error
        compile_all
        (inl none)
        with_one).1
    ≡ expected
        (validate_manifest (manifest "e" "/a[b"))
        (inl "k")
        (register_external
          (manifest "e" "/a[b")
          local
          (inl "k")
          syntax_error
          compile_all
          (inl none)
          with_one).0
        (status_of "e" with_one)
register_external-status_example =
    register_external-status (manifest "e" "/a[b") local syntax_error compile_all (inl none)
      with_one (inl "k")

failed_route :
    (register_external
      (manifest "e" "/a[b")
      local
      (inl "k")
      syntax_error
      compile_all
      (inl none)
      with_one).0
    ≡ some "Invalid regular expression"
unfolding register_external is_special
failed_route = refl

abbrev stack : Datasource
stack = record { fields = []; annotations = [] }

get_visualizers_for_datasource-IsSorted_example :
    Falls priority_of (get_visualizers_for_datasource stack with_two)
    × Same priority_of
        (get_visualizers_for_datasource stack with_two)
        (keep (is_applicable stack) (values with_two.visualizers))
get_visualizers_for_datasource-IsSorted_example =
    get_visualizers_for_datasource-IsSorted stack with_two

get_data_processors_for_stage-IsSorted_example :
    Rises order_of (get_data_processors_for_stage "pre-buffer" with_two)
    × Same order_of
        (get_data_processors_for_stage "pre-buffer" with_two)
        (keep (is_for "pre-buffer") (all_processors (values with_two.plugins)))
get_data_processors_for_stage-IsSorted_example =
    get_data_processors_for_stage-IsSorted "pre-buffer" with_two
