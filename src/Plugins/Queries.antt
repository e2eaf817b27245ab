-- ===== src/Plugins/Queries.antt =====
-- What the registry finds: the matching of patterns and conditions, and the lists that the views ask
-- for (plugin-registry.service.svelte.ts and utils/visualizerConfig.ts).
use ig_desktop.Prelude.{
  String, Bool, true, false, ◌&&◌, ◌||◌, Option, none, some, List, [], ◌∷◌, ◌++◌, if◌then◌else◌,
  str_eq, any, keep, or_default,
}
use ig_desktop.Prelude.Int.{pos, ltb_ℤ}
use ig_desktop.Prelude.Assoc.{lookup, values}
use ig_desktop.Prelude.Sort.{sort}
use ig_desktop.Js.Text.{starts_with, ends_with, contains, split, strip_first, strip_last, trim}
use ig_desktop.Plugins.{
  VisualizerConditions, Applicable, always, all_of, one_of, PluginStatus, ready, RegisteredPlugin,
  DataProcessorCapability, VisualizerCapability,
}
use ig_desktop.Plugins.Registry.{Registered, PluginRegistry}

-- `const [prefix, suffix] = pattern.split('*')`.
unfoldable pub between_parts : String → List String → Bool
unfolding starts_with ends_with
between_parts value (prefix ∷ suffix ∷ rest) = starts_with prefix value && ends_with suffix value
between_parts value parts = false

unfoldable pub matches_pattern : String → String → Bool
unfolding between_parts split strip_first strip_last contains
matches_pattern value pattern =
    if str_eq pattern "*"
    then true
    else if ends_with "*" pattern
    then starts_with (strip_last b'*' pattern) value
    else if starts_with "*" pattern
    then ends_with (strip_first b'*' pattern) value
    else if contains b'*' pattern
    then between_parts value (split b'*' pattern)
    else str_eq value pattern

-- The fields of a datasource as they are read here; no annotations are an empty list.
pub record DatasourceField : Type 0 where
  pub name : String
  pub full_name : String
  pub tags : List String
  pub annotations : List (String × String)

pub record Datasource : Type 0 where
  pub fields : List DatasourceField
  pub annotations : List (String × String)

-- `annotations?.[key] === value`.
unfoldable pub is_annotated : List (String × String) → String → String → Bool
unfolding lookup
is_annotated annotations key value = elim (lookup key annotations) [
  | none ↦ false
  | some v ↦ str_eq v value
]

unfoldable pub all_pass {ℓ} : {A : Type ℓ} → (A → Bool) → List A → Bool
all_pass p [] = true
all_pass p (x ∷ xs) = p x && all_pass p xs

unfoldable pub fields_for : Datasource → String → List DatasourceField
unfolding matches_pattern
fields_for ds pattern =
    keep (λ f. matches_pattern f.full_name pattern || matches_pattern f.name pattern) ds.fields

-- A kind of condition that is missing holds.
abbrev when_given {ℓ} : {A : Type ℓ} → Option (List A) → (A → Bool) → Bool
when_given none p = true
when_given (some xs) p = all_pass p xs

unfoldable pub matches_visualizer_conditions : Datasource → VisualizerConditions → Bool
unfolding is_annotated all_pass fields_for
matches_visualizer_conditions ds c =
    when_given c.has_annotation (λ a.
      is_annotated ds.annotations (a.0) (a.1)
      || any (λ f. is_annotated f.annotations (a.0) (a.1)) ds.fields)
    && when_given c.has_field (λ n. any (λ f. str_eq f.full_name n || str_eq f.name n) ds.fields)
    && when_given c.has_field_annotation (λ a.
      any (λ f. all_pass (λ e. is_annotated f.annotations (e.0) (e.1)) (a.1)) (fields_for ds (a.0)))
    && when_given c.has_field_tag
        (λ a. any (λ f. any (λ t. str_eq t (a.1)) f.tags) (fields_for ds (a.0)))

-- `isVisualizerExcluded`.
unfoldable pub is_visualizer_excluded : List (String × String) → String → Bool
unfolding lookup split trim
is_visualizer_excluded annotations id =
    any (λ s. str_eq (trim s) id)
      (split 44 (or_default (lookup "visualizers.exclude" annotations) ""))

unfoldable pub meets : Datasource → Applicable → Bool
unfolding matches_visualizer_conditions
meets ds always = true
meets ds (all_of c) = matches_visualizer_conditions ds c
meets ds (one_of []) = true
meets ds (one_of (c ∷ cs)) = any (matches_visualizer_conditions ds) (c ∷ cs)

abbrev pub first {ℓ} : {A : Type ℓ} → List A → Option A
first [] = none
first (x ∷ xs) = some x

module _ {C : Type 0} where
  unfoldable pub is_applicable : Datasource → Registered C VisualizerCapability → Bool
  unfolding is_visualizer_excluded meets
  is_applicable ds v =
      if is_visualizer_excluded ds.annotations v.capability.id
      then false
      else meets ds v.capability.applicable_when

  -- `b.priority - a.priority`: a higher priority stands in front.
  unfoldable pub priority_before :
      Registered C VisualizerCapability → Registered C VisualizerCapability → Bool
  priority_before a b =
      ltb_ℤ (or_default b.capability.priority (pos 0)) (or_default a.capability.priority (pos 0))

  unfoldable pub sorted_visualizers : PluginRegistry C → List (Registered C VisualizerCapability)
  unfolding sort values priority_before
  sorted_visualizers r = sort priority_before (values r.visualizers)

  unfoldable pub get_visualizers_for_datasource :
      Datasource → PluginRegistry C → List (Registered C VisualizerCapability)
  unfolding is_applicable sorted_visualizers
  get_visualizers_for_datasource ds r = keep (is_applicable ds) (sorted_visualizers r)

  unfoldable pub get_default_visualizer_for_datasource :
      Datasource → PluginRegistry C → Option (Registered C VisualizerCapability)
  unfolding get_visualizers_for_datasource
  get_default_visualizer_for_datasource ds r = first (get_visualizers_for_datasource ds r)

-- A plugin with one of its data processors.
abbrev pub Processor : Type 0
Processor = RegisteredPlugin × DataProcessorCapability

abbrev pub is_ready : PluginStatus → Bool
is_ready ready = true
is_ready s = false

unfoldable pub processors_of :
    String → RegisteredPlugin → List DataProcessorCapability → List Processor
processors_of stage p [] = []
processors_of stage p (dp ∷ dps) =
    let rest = processors_of stage p dps in if str_eq dp.stage stage then (p, dp) ∷ rest else rest

unfoldable pub processors_in : String → List RegisteredPlugin → List Processor
unfolding processors_of
processors_in stage [] = []
processors_in stage (p ∷ ps) =
    let rest = processors_in stage ps in
    if is_ready p.status
    then processors_of stage p (or_default p.manifest.data_processors []) ++ rest
    else rest

unfoldable pub order_before : Processor → Processor → Bool
order_before a b = ltb_ℤ (or_default (a.1).order (pos 0)) (or_default (b.1).order (pos 0))

module _ {C : Type 0} where
  unfoldable pub get_data_processors_for_stage : String → PluginRegistry C → List Processor
  unfolding processors_in sort order_before values
  get_data_processors_for_stage stage r = sort order_before (processors_in stage (values r.plugins))
