-- ===== src/NetworkMap/Config/Origin.antt =====
-- The configuration of a map names fields of its datasource only.
use ig_desktop.Prelude.{
  ◌≡◌, refl, String, true, false, Option, none, some, List, [], ◌∷◌, Bool-cases, inl, inr, find,
  str_eq, eq_refl, arith,
}
use ig_desktop.NetworkMap.Types.{NetworkMapFieldConfig, NetworkMapConfig}
use ig_desktop.NetworkMap.Config.{
  DatasourceField, Detected, field_names, has_name, find_field, or_found, detect, detect_key,
  detect_role, detect_port, nothing_detected, with_addresses, extract_network_map_config,
}

-- A name that is given is one of these.
abbrev pub IsFrom : List String → Option String → Type 0
IsFrom names none = Unit
IsFrom names (some n) = has_name names n ≡ true

pub record AreFrom (names : List String) (d : Detected) : Type 0 where
  pub src_addr : IsFrom names d.src_addr
  pub src_port : IsFrom names d.src_port
  pub dst_addr : IsFrom names d.dst_addr
  pub dst_port : IsFrom names d.dst_port
  pub proto : IsFrom names d.proto

module _ (names : List String) (f : DatasourceField) (h : has_name names f.full_name ≡ true) where
  detect_port-AreFrom : (d : Detected) → AreFrom names d → AreFrom names (detect_port f d)
  unfolding detect_port
  detect_port-AreFrom d a = ground arith

  detect_role-AreFrom : (d : Detected) → AreFrom names d → AreFrom names (detect_role f d)
  unfolding detect_role
  detect_role-AreFrom d a = ground (arith, detect_port-AreFrom d a)

  detect_key-AreFrom : (d : Detected) → AreFrom names d → AreFrom names (detect_key f d)
  unfolding detect_key
  detect_key-AreFrom d a = ground arith

-- Every field of the list has its name among these.
abbrev AllNamed : List String → List DatasourceField → Type 0
AllNamed names [] = Unit
AllNamed names (f ∷ fs) = (has_name names f.full_name ≡ true) × AllNamed names fs

detect-AreFrom :
    (names : List String) (fs : List DatasourceField) (d : Detected)
    → AllNamed names fs
    → AreFrom names d
    → AreFrom names (detect fs d)
unfolding detect
detect-AreFrom names [] d h a = a
detect-AreFrom names (f ∷ fs) d (p, h) a =
    detect-AreFrom names fs (detect_key f (detect_role f d)) h
      (detect_key-AreFrom names f p (detect_role f d) (detect_role-AreFrom names f p d a))

find-IsFrom : (names ps : List String) → IsFrom names (find (has_name names) ps)
find-IsFrom names [] = tt
find-IsFrom names (p ∷ ps) = elim (Bool-cases (has_name names p)) [
  | inl b ↦ rw (b, IsFrom) b
  | inr b ↦ rw (b, IsFrom) (find-IsFrom names ps)
]

or_found-IsFrom :
    (names ps : List String) (o : Option String)
    → IsFrom names o
    → IsFrom names (or_found o names ps)
unfolding or_found find_field
or_found-IsFrom names ps none h = find-IsFrom names ps
or_found-IsFrom names ps (some n) h = elim (Bool-cases (str_eq n "")) [
  | inl b ↦ rw b (find-IsFrom names ps)
  | inr b ↦ rw b h
]

AllNamed-more :
    (n : String) (names : List String) (fs : List DatasourceField)
    → AllNamed names fs
    → AllNamed (n ∷ names) fs
unfolding has_name
AllNamed-more n names [] h = tt
AllNamed-more n names (f ∷ fs) (p, h) = (rw p (ground arith), AllNamed-more n names fs h)

field_names-AllNamed : (fs : List DatasourceField) → AllNamed (field_names fs) fs
unfolding has_name
field_names-AllNamed [] = tt
field_names-AllNamed (f ∷ fs) = (
  rw (eq_refl f.full_name) refl,
  AllNamed-more f.full_name (field_names fs) fs (field_names-AllNamed fs),
)

-- What is known of a configuration that was extracted.
pub record IsConfigOf (names : List String) (c : NetworkMapFieldConfig) : Type 0 where
  pub src_addr : has_name names c.src_addr ≡ true
  pub dst_addr : has_name names c.dst_addr ≡ true
  pub src_port : IsFrom names c.src_port
  pub dst_port : IsFrom names c.dst_port
  pub proto : IsFrom names c.proto

-- The flag and the fields agree, and the fields hold to the datasource.
abbrev pub IsExtracted : List String → NetworkMapConfig → Type 0
IsExtracted names c = elim c.fields [
  | none ↦ c.is_valid_network_map ≡ false
  | some fields ↦ (c.is_valid_network_map ≡ true) × IsConfigOf names fields
]

with_addresses-IsExtracted :
    (names : List String) (s d : Option String) (k : String → String → NetworkMapFieldConfig)
    → IsFrom names s
    → IsFrom names d
    → ((a b : String)
        → has_name names a ≡ true
        → has_name names b ≡ true
        → IsConfigOf names (k a b))
    → IsExtracted names (with_addresses s d k)
unfolding with_addresses
with_addresses-IsExtracted names none none k a b h = refl
with_addresses-IsExtracted names none (some d) k a b h = refl
with_addresses-IsExtracted names (some s) none k a b h = refl
with_addresses-IsExtracted names (some s) (some d) k a b h = elim (Bool-cases (str_eq s "")) [
  | inl e ↦ rw e refl
  | inr e ↦ elim (Bool-cases (str_eq d "")) [
    | inl f ↦ rw (e, f) refl
    | inr f ↦ rw (e, f) (refl, h s d a b)
  ]
]

-- A configuration is valid exactly when it has fields, and then both addresses, the ports and the
-- protocol that it names are names of fields of the datasource.
pub extract_network_map_config-IsExtracted :
    (fs : List DatasourceField) → IsExtracted (field_names fs) (extract_network_map_config fs)
unfolding extract_network_map_config
extract_network_map_config-IsExtracted fs =
    let names = field_names fs in
    let a =
      detect-AreFrom names fs nothing_detected (field_names-AllNamed fs)
        (record { src_addr = tt; src_port = tt; dst_addr = tt; dst_port = tt; proto = tt }) in
    with_addresses-IsExtracted names _ _ _ (or_found-IsFrom names _ _ a.src_addr)
      (or_found-IsFrom names _ _ a.dst_addr)
      (λ s d p q. record {
        src_addr = p;
        dst_addr = q;
        src_port = or_found-IsFrom names _ _ a.src_port;
        dst_port = or_found-IsFrom names _ _ a.dst_port;
        proto = or_found-IsFrom names _ _ a.proto;
      })
