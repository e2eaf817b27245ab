-- ===== src/Plugins.antt =====
-- The plugins of the frontend: frontend/src/lib/types/plugin-manifest.ts and plugin-system.ts. Texts
-- that are only shown are left out, and so is the time of loading.
pub mod Validation
pub mod Registry
pub mod External
pub mod Queries
pub mod Lookups
mod Owned
mod Invariant
mod Outcomes
mod Lists
mod Tests
use ig_desktop.Prelude.{String, Bool, Option, none, List, ◌&&◌, true, false}
use ig_desktop.Prelude.Int.{ℤ}

pub record VisualizerConditions : Type 0 where
  pub has_annotation : Option (List (String × String))
  pub has_field : Option (List String)
  pub has_field_annotation : Option (List (String × List (String × String)))
  pub has_field_tag : Option (List (String × String))
  pub datasource_type : Option String

-- `applicableWhen`: missing, one set of conditions, or an array of them.
pub data Applicable : Type 0 where
  always : Applicable
  all_of : VisualizerConditions → Applicable
  one_of : List VisualizerConditions → Applicable

pub record VisualizerCapability : Type 0 where
  pub id : String
  pub display_name : String
  pub icon : String
  pub component : String
  pub applicable_when : Applicable
  pub priority : Option ℤ

pub record DataProcessorCapability : Type 0 where
  pub id : String
  pub stage : String
  pub order : Option ℤ
  pub applies_to : Option (List String)

pub record ParamInputCapability : Type 0 where
  pub id : String
  pub component : String
  pub match_type_hint : Option (List String)
  pub match_value_hint : Option (List String)
  pub match_key : Option (List String)

pub record InspectorTabCapability : Type 0 where
  pub id : String
  pub component : String
  pub requires_inspect : Bool
  pub priority : Option ℤ
  pub developer_only : Bool

pub record RouteCapability : Type 0 where
  pub path : String
  pub component : String

pub record PluginHookDefinition : Type 0 where
  pub hook_id : String
  pub component : String
  pub allowed_scopes : Option (List String)
  pub priority : Option ℤ

-- The settings are their keys.
pub record PluginManifest : Type 0 where
  pub id : String
  pub name : String
  pub version : String
  pub visualizers : Option (List VisualizerCapability)
  pub data_processors : Option (List DataProcessorCapability)
  pub param_inputs : Option (List ParamInputCapability)
  pub inspector_tabs : Option (List InspectorTabCapability)
  pub hooks : Option (List PluginHookDefinition)
  pub routes : Option (List RouteCapability)
  pub settings : Option (List String)

pub data PluginSource : Type 0 where
  builtin local gadget : PluginSource

pub data PluginStatus : Type 0 where
  registered loading ready failed disabled : PluginStatus

pub record RegisteredPlugin : Type 0 where
  pub manifest : PluginManifest
  pub source : PluginSource
  pub status : PluginStatus
  pub error : Option String
  pub cache_key : Option String
