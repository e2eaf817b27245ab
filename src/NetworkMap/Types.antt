-- ===== src/NetworkMap/Types.antt =====
-- frontend/src/lib/types/networkmap.ts. Times are whole milliseconds. The fields that are constant
-- in this component (the XYFlow node type and the position) are left out.
use ig_desktop.Prelude.{ℕ, String, Bool, List, Option}
use ig_desktop.Prelude.Int.{ℤ, pos}

-- `'source' | 'target' | 'both'`.
pub data HandleType : Type 0 where
  source target both : HandleType

pub record NetworkHandle : Type 0 where
  pub id : String
  pub proto : String
  pub port : ℤ
  pub type : HandleType
  pub connection_count : ℕ
  pub is_active : Bool
  pub last_seen : ℤ

pub record NetworkNodeLabel : Type 0 where
  pub field : String
  pub value : String

pub record NetworkNode : Type 0 where
  pub id : String
  pub addr : String
  pub labels : List NetworkNodeLabel
  pub label : String
  pub handles : List NetworkHandle
  pub connection_count : ℕ
  pub is_active : Bool
  pub last_seen : ℤ

pub record NetworkEdge : Type 0 where
  pub id : String
  pub source_node : String
  pub target_node : String
  pub source_handle : String
  pub target_handle : String
  pub count : ℕ
  pub proto : String
  pub last_seen : ℤ
  pub is_active : Bool

pub record NetworkMapFieldConfig : Type 0 where
  pub src_addr : String
  pub src_port : Option String
  pub dst_addr : String
  pub dst_port : Option String
  pub proto : Option String
  pub src_key_fields : Option (List String)
  pub dst_key_fields : Option (List String)
  pub shared_key_fields : Option (List String)

-- `isValidNetworkMap` is that the fields are there.
pub record NetworkMapConfig : Type 0 where
  pub fields : Option NetworkMapFieldConfig
  pub is_valid_network_map : Bool

pub record NetworkGraphState : Type 0 where
  pub nodes_map : List (String × NetworkNode)
  pub edges_map : List (String × NetworkEdge)
  pub version : ℕ

abbrev pub edge_animation_duration : ℤ
edge_animation_duration = pos 1500

abbrev pub node_activity_timeout : ℤ
node_activity_timeout = pos 5000

abbrev pub default_ephemeral_port_threshold : ℤ
default_ephemeral_port_threshold = pos 32768
