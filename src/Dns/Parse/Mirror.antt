-- ===== src/Dns/Parse/Mirror.antt =====
-- A response has the key of the request that it answers, whichever way the packet went.
use mathlib.Core.Path.{subst₂}
use mathlib.Core.Option.{none-ne-some, some-injective}
use ig_desktop.Prelude.{
  ◌≡◌, refl, sym, ◌∙◌, ap, Bool, true, false, Option, none, some, if◌then◌else◌,
}
use ig_desktop.Js.{Event, field, interpret_qr}
use ig_desktop.Dns.Types.{DnsFieldConfig}
use ig_desktop.Dns.Address.{number_at}
use ig_desktop.Dns.Parse.{
  ParsedDnsEvent, parsed, parse_dns_event, lacks_mandatory, build_identity, build_key,
}

-- The packets `e` and `f` go opposite ways between the same ends, and agree in id, name, type and
-- capture identity.
pub record AreMirrored (config : DnsFieldConfig) (e f : Event) : Type 0 where
  pub src_addr : field config.src_addr_field e ≡ field config.dst_addr_field f
  pub dst_addr : field config.dst_addr_field e ≡ field config.src_addr_field f
  pub src_port : number_at e config.src_port_field ≡ number_at f config.dst_port_field
  pub dst_port : number_at e config.dst_port_field ≡ number_at f config.src_port_field
  pub id : field config.id_field e ≡ field config.id_field f
  pub name : field config.name_field e ≡ field config.name_field f
  pub qtype : field config.qtype_field e ≡ field config.qtype_field f
  pub identity : build_identity e config ≡ build_identity f config

parsed_when :
    (o : Option Bool) (lacks : Bool) (k : Bool → ParsedDnsEvent) (p : ParsedDnsEvent)
    → elim o [ none ↦ none | some b ↦ if lacks then none else some (k b) ] ≡ some p
    → (b : Bool) × (o ≡ some b) × (k b ≡ p)
parsed_when none l k p h = absurd (none-ne-some p h)
parsed_when (some b) true k p h = absurd (none-ne-some p h)
parsed_when (some b) false k p h = (b, refl, some-injective (k b) p h)

-- An event that parses is read in the direction that its `qr` field names.
pub parse-eq-parsed :
    (config : DnsFieldConfig) (e : Event) (p : ParsedDnsEvent)
    → parse_dns_event e config ≡ some p
    → (b : Bool) × (interpret_qr (field config.qr_field e) ≡ some b) × (parsed e config b ≡ p)
unfolding parse_dns_event
parse-eq-parsed config e p h =
    parsed_when (interpret_qr (field config.qr_field e)) (lacks_mandatory e config)
      (λ b. parsed e config b) p h

is_response-parsed :
    (config : DnsFieldConfig) (e : Event) (b : Bool) → (parsed e config b).is_response ≡ b
unfolding parsed
is_response-parsed config e b = refl

module _ (config : DnsFieldConfig) (e f : Event) (m : AreMirrored config e f) where
  parsed-mirrored :
      let p = parsed e config false in
      let q = parsed f config true in
      (p.requester ≡ q.requester) × (p.nameserver ≡ q.nameserver) × (build_key p ≡ build_key q)
  unfolding parsed build_key
  parsed-mirrored = (
    simp (m.src_addr, m.src_port),
    simp (m.dst_addr, m.dst_port),
    simp (m.src_addr, m.src_port, m.dst_addr, m.dst_port, m.id, m.name, m.qtype, m.identity),
  )

-- A request and the response that goes the other way are read with the same ends and the same key.
pub build_key_mirrored :
    (config : DnsFieldConfig) (e f : Event) (p q : ParsedDnsEvent)
    → AreMirrored config e f
    → parse_dns_event e config ≡ some p
    → parse_dns_event f config ≡ some q
    → p.is_response ≡ false
    → q.is_response ≡ true
    → (p.requester ≡ q.requester) × (p.nameserver ≡ q.nameserver) × (build_key p ≡ build_key q)
build_key_mirrored config e f p q m hp hq rp rq =
    let (b, _, ep) = parse-eq-parsed config e p hp in
    let (c, _, eq) = parse-eq-parsed config f q hq in
    let isb : b ≡ false =
      sym (is_response-parsed config e b) ∙ ap (λ (x : ParsedDnsEvent). x.is_response) ep ∙ rp in
    let isc : c ≡ true =
      sym (is_response-parsed config f c) ∙ ap (λ (x : ParsedDnsEvent). x.is_response) eq ∙ rq in
    let (x, y, z) = parsed-mirrored config e f m in
    let u : parsed e config false ≡ p = ap (parsed e config) (sym isb) ∙ ep in
    let v : parsed f config true ≡ q = ap (parsed f config) (sym isc) ∙ eq in
    (
      subst₂ (λ a d. a.requester ≡ d.requester) u v x,
      subst₂ (λ a d. a.nameserver ≡ d.nameserver) u v y,
      subst₂ (λ a d. build_key a ≡ build_key d) u v z,
    )
