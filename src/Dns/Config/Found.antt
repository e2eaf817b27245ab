-- ===== src/Dns/Config/Found.antt =====
-- The configuration of the DNS view names fields of the datasource only.
use mathlib.Core.Path.{subst}
use mathlib.Core.Bool.{true≢false}
use mathlib.Core.Option.{none-ne-some, some-injective}
use ig_desktop.Prelude.{
  ◌≡◌, sym, String, true, Option, none, some, List, [], ◌∷◌, keep-passes, All, coalesce, Bool-cases,
  inl, inr,
}
use ig_desktop.Dns.Types.{DnsFieldConfig}
use ig_desktop.Dns.Config.{
  required_dns_fields, identity_field_patterns, has_name, found, has_all, extract_dns_config,
}

-- A field that is named is one of the datasource.
abbrev IsFound : List String → Option String → Type 0
IsFound names none = Unit
IsFound names (some name) = has_name names name ≡ true

found-IsFound : (names : List String) (name : String) → IsFound names (found names name)
unfolding found
found-IsFound names name = elim (Bool-cases (has_name names name)) [
  | inl b ↦ rw b b
  | inr b ↦ rw b tt
]

coalesce-IsFound :
    (names : List String) (o p : Option String)
    → IsFound names o
    → IsFound names p
    → IsFound names (coalesce o p)
coalesce-IsFound names none p h k = k
coalesce-IsFound names (some n) p h k = h

-- The fields that a configuration names.
abbrev fields_of : DnsFieldConfig → List (Option String)
fields_of c =
    some c.id_field
    ∷ some c.qr_field
    ∷ some c.name_field
    ∷ some c.qtype_field
    ∷ some c.src_addr_field
    ∷ some c.dst_addr_field
    ∷ c.qtype_display_field
    ∷ c.src_port_field
    ∷ c.dst_port_field
    ∷ c.proto_field
    ∷ c.timestamp_field
    ∷ c.latency_field
    ∷ c.rcode_field
    ∷ c.rcode_display_field
    ∷ c.num_answers_field
    ∷ c.addresses_field
    ∷ c.pkt_type_field
    ∷ c.pkt_type_display_field
    ∷ c.k8s_node_field
    ∷ c.k8s_namespace_field
    ∷ c.k8s_pod_name_field
    ∷ c.k8s_container_name_field
    ∷ c.runtime_container_id_field
    ∷ c.runtime_container_name_field
    ∷ c.runtime_name_field
    ∷ c.netns_id_field
    ∷ c.src_k8s_kind_field
    ∷ c.src_k8s_name_field
    ∷ c.src_k8s_namespace_field
    ∷ c.dst_k8s_kind_field
    ∷ c.dst_k8s_name_field
    ∷ c.dst_k8s_namespace_field
    ∷ []

has_all-All :
    (names required : List String)
    → has_all names required ≡ true
    → All (λ r. has_name names r ≡ true) required
unfolding has_all
has_all-All names [] h = tt
has_all-All names (r ∷ required) h = elim (Bool-cases (has_name names r)) [
  | inl b ↦ (b, has_all-All names required (rw b at h))
  | inr b ↦ absurd (true≢false (sym (rw b at h)))
]

-- A configuration names fields of the datasource only.
extract_dns_config-IsFound :
    (names : List String) (c : DnsFieldConfig)
    → extract_dns_config names ≡ some c
    → All (IsFound names) (fields_of c) × All (λ n. has_name names n ≡ true) c.identity_fields
unfolding extract_dns_config
extract_dns_config-IsFound names c e = elim (Bool-cases (has_all names required_dns_fields)) [
  | inl b ↦
      let (ha, (hb, (hc, (hd, (he, (hf, _)))))) = has_all-All names required_dns_fields b in
      subst
        (λ c.
          All (IsFound names) (fields_of c) × All (λ n. has_name names n ≡ true) c.identity_fields)
        (some-injective _ c (rw b at e))
        (
          (
            ha,
            (
              hb,
              (
                hc,
                (
                  hd,
                  (
                    he,
                    (
                      hf,
                      (
                        found-IsFound names "qtype",
                        (
                          found-IsFound names "src.port",
                          (
                            found-IsFound names "dst.port",
                            (
                              coalesce-IsFound names (found names "src.proto") (found names "proto")
                                  (found-IsFound names "src.proto") (found-IsFound names "proto"),
                              (
                                coalesce-IsFound names (found names "timestamp_raw")
                                    (found names "timestamp") (found-IsFound names "timestamp_raw")
                                    (found-IsFound names "timestamp"),
                                (
                                  found-IsFound names "latency_ns_raw",
                                  (
                                    found-IsFound names "rcode_raw",
                                    (
                                      found-IsFound names "rcode",
                                      (
                                        found-IsFound names "num_answers",
                                        (
                                          found-IsFound names "addresses",
                                          (
                                            found-IsFound names "pkt_type_raw",
                                            (
                                              found-IsFound names "pkt_type",
                                              (
                                                found-IsFound names "k8s.node",
                                                (
                                                  found-IsFound names "k8s.namespace",
                                                  (
                                                    found-IsFound names "k8s.podName",
                                                    (
                                                      found-IsFound names "k8s.containerName",
                                                      (
                                                        found-IsFound names "runtime.containerId",
                                                        (
                                                          found-IsFound names
                                                            "runtime.containerName",
                                                          (
                                                            found-IsFound names
                                                            "runtime.runtimeName",
                                                            (
                                                            found-IsFound names "netns_id",
                                                            (
                                                            found-IsFound names "src.k8s.kind",
                                                            (
                                                            found-IsFound names "src.k8s.name",
                                                            (
                                                            found-IsFound names "src.k8s.namespace",
                                                            (
                                                            found-IsFound names "dst.k8s.kind",
                                                            (
                                                            found-IsFound names "dst.k8s.name",
                                                            (
                                                            found-IsFound names "dst.k8s.namespace",
                                                            tt,
                                                            ),
                                                            ),
                                                            ),
                                                            ),
                                                            ),
                                                            ),
                                                            ),
                                                          ),
                                                        ),
                                                      ),
                                                    ),
                                                  ),
                                                ),
                                              ),
                                            ),
                                          ),
                                        ),
                                      ),
                                    ),
                                  ),
                                ),
                              ),
                            ),
                          ),
                        ),
                      ),
                    ),
                  ),
                ),
              ),
            ),
          ),
          keep-passes (has_name names) identity_field_patterns,
        )
  | inr b ↦ absurd (none-ne-some c (rw b at e))
]
