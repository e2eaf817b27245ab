-- ===== src/NetworkMap/Graph/Direction.antt =====
-- The direction of an edge does not depend on which end of the connection sent the packet.
use ig_desktop.Prelude.{
  ◌≡◌, refl, ap, ◌∙◌, sym, true, false, String, Option, none, some, arith, Bool-cases, inl, inr,
  map_option,
}
use ig_desktop.Prelude.Int.{ℤ, pos, ◌<ℤ◌, ◌≤ℤ◌}
use ig_desktop.Js.{Event, field, text_of}
use ig_desktop.NetworkMap.Types.{NetworkMapFieldConfig}
use ig_desktop.NetworkMap.Graph.{
  orient, edge_id_of, port_at, proto_at, read_connection, read_ends, connection_of, src_end,
  dst_end, is_localhost,
}
use ig_desktop.NetworkMap.Ids.{should_reverse_by_port, build_node_id}

-- The same packet fields, seen from the other side.
pub record AreMirrored (config : NetworkMapFieldConfig) (a b : Event) : Type 0 where
  pub src_addr : field config.src_addr a ≡ field config.dst_addr b
  pub dst_addr : field config.dst_addr a ≡ field config.src_addr b
  pub src_port : port_at config.src_port a ≡ port_at config.dst_port b
  pub dst_port : port_at config.dst_port a ≡ port_at config.src_port b
  pub proto : proto_at config.proto a ≡ proto_at config.proto b
  pub src_id :
      (x : String)
      → build_node_id x config.src_key_fields a ≡ build_node_id x config.dst_key_fields b
  pub dst_id :
      (x : String)
      → build_node_id x config.dst_key_fields a ≡ build_node_id x config.src_key_fields b
  pub shared_id :
      (x : String)
      → build_node_id x config.shared_key_fields a ≡ build_node_id x config.shared_key_fields b

-- One port lies below the threshold and the other one does not.
pub record HasOneLowPort (config : NetworkMapFieldConfig) (threshold : ℤ) (a : Event) : Type 0 where
  pub low : ℤ
  pub high : ℤ
  pub is_low : low <ℤ threshold
  pub is_high : threshold ≤ℤ high
  pub src : port_at config.src_port a ≡ some low
  pub dst : port_at config.dst_port a ≡ some high

reversed :
    (low high threshold : ℤ)
    → pos 0 <ℤ threshold
    → low <ℤ threshold
    → threshold ≤ℤ high
    → should_reverse_by_port (some low) (some high) threshold ≡ true
unfolding should_reverse_by_port
reversed low high threshold p l h = ground arith

kept :
    (low high threshold : ℤ)
    → low <ℤ threshold
    → threshold ≤ℤ high
    → should_reverse_by_port (some high) (some low) threshold ≡ false
unfolding should_reverse_by_port
kept low high threshold l h = ground arith

module _ (config : NetworkMapFieldConfig) (threshold : ℤ) (a b : Event) (m : AreMirrored config a b)
    (h : HasOneLowPort config threshold a) (p : pos 0 <ℤ threshold) where
  connection_of-mirrored :
      (s d : String)
      → edge_id_of a threshold (connection_of config threshold a s d)
        ≡ edge_id_of b threshold (connection_of config threshold b d s)
  unfolding connection_of edge_id_of orient src_end dst_end
  connection_of-mirrored s d =
      let there = reversed h.low h.high threshold p h.is_low h.is_high in
      let back = kept h.low h.high threshold h.is_low h.is_high in
      let src : port_at config.dst_port b ≡ some h.low = sym m.src_port ∙ h.src in
      let dst : port_at config.src_port b ≡ some h.high = sym m.dst_port ∙ h.dst in
      elim (Bool-cases (is_localhost s)) [
        | inl e ↦ elim (Bool-cases (is_localhost d)) [
          | inl f ↦ simp (e, f, there, back, src, dst, h.src, h.dst, m.proto, m.shared_id)
          | inr f ↦ simp (e, f, there, back, src, dst, h.src, h.dst, m.proto, m.src_id, m.dst_id)
        ]
        | inr e ↦ elim (Bool-cases (is_localhost d)) [
          | inl f ↦ simp (e, f, there, back, src, dst, h.src, h.dst, m.proto, m.src_id, m.dst_id)
          | inr f ↦ simp (e, f, there, back, src, dst, h.src, h.dst, m.proto, m.src_id, m.dst_id)
        ]
      ]

  read_ends-mirrored :
      (s d : Option String)
      → map_option (edge_id_of a threshold) (read_ends config threshold a s d)
        ≡ map_option (edge_id_of b threshold) (read_ends config threshold b d s)
  unfolding read_ends
  read_ends-mirrored none none = refl
  read_ends-mirrored none (some d) = refl
  read_ends-mirrored (some s) none = refl
  read_ends-mirrored (some s) (some d) = ap some (connection_of-mirrored s d)

  -- A packet from a low port to a high one counts on the same edge as the packet that goes back.
  edge_id_of-mirrored :
      map_option (edge_id_of a threshold) (read_connection config threshold a)
      ≡ map_option (edge_id_of b threshold) (read_connection config threshold b)
  unfolding read_connection
  edge_id_of-mirrored =
      rw (m.src_addr, m.dst_addr)
        (read_ends-mirrored (text_of (field config.dst_addr b)) (text_of (field config.src_addr b)))
