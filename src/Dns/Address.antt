-- ===== src/Dns/Address.antt =====
-- Multicast traffic and event times: `isMulticastOrBroadcastAddr`, `isAmbiguousEvent`,
-- `resolveEventTimeMs` and `normalizeName` of frontend/src/lib/utils/dns/dnsCorrelator.ts.
use Prim.Native.Char.{code}
use ig_desktop.Prelude.{
  ℕ, String, Bool, true, false, ◌||◌, ◌&&◌, Option, none, some, List, [], ◌∷◌, ◌==◌, leb,
  if◌then◌else◌, str_eq, coalesce, not,
}
use ig_desktop.Prelude.Int.{ℤ, pos, scale, eqb_ℤ, ltb_ℤ}
use ig_desktop.Js.{Value, num, Event, field, with_field, to_number, to_str}
use ig_desktop.Js.Numerals.{is_octet, parse_ℕ}
use ig_desktop.Js.Text.{trim, lower, upper, before, contains, split, strip_last, strip_first}
use ig_desktop.Dns.Types.{DnsFieldConfig}

-- The first group of `/^(\d{1,3})\.\d{1,3}\.\d{1,3}\.\d{1,3}$/`.
unfoldable pub first_octet : List String → Option ℕ
unfolding is_octet parse_ℕ
first_octet (a ∷ b ∷ c ∷ d ∷ []) =
    if is_octet a && is_octet b && is_octet c && is_octet d then parse_ℕ a else none
first_octet _ = none

unfoldable pub is_ff : String → Bool
is_ff (String.◌∷◌ a (String.◌∷◌ b s)) = code a == b'f' && code b == b'f'
is_ff _ = false

-- `isMulticastOrBroadcastAddr`.
unfoldable pub is_multicast_or_broadcast : String → Bool
unfolding first_octet is_ff trim lower before contains split strip_last strip_first
is_multicast_or_broadcast addr =
    let a = trim addr in
    let stripped = lower (before b'%' (strip_last b']' (strip_first b'[' a))) in
    if str_eq addr ""
    then false
    else if str_eq a "255.255.255.255"
    then true
    else elim (first_octet (split b'.' a)) [
      | some octet ↦ leb 224 octet && leb octet 239
      | none ↦ if contains b':' stripped then is_ff (before b':' stripped) else false
    ]

unfoldable pub is_multicast_port : ℤ → Bool
is_multicast_port port = eqb_ℤ port (pos 5353) || eqb_ℤ port (pos 5355)

abbrev pub is_multicast_port? : Option ℤ → Bool
is_multicast_port? none = false
is_multicast_port? (some port) = is_multicast_port port

abbrev pub is_multicast_type : Option ℤ → Bool
is_multicast_type none = false
is_multicast_type (some n) = eqb_ℤ n (pos 1) || eqb_ℤ n (pos 2)

-- `Boolean(name)` of an optional field name.
unfoldable pub is_set : Option String → Bool
is_set none = false
is_set (some name) = not (str_eq name "")

unfoldable pub number_at : Event → Option String → Option ℤ
unfolding with_field field to_number
number_at event name = with_field name none (λ f. to_number (field f event))

unfoldable pub text_at : Event → Option String → String
unfolding with_field field to_str
text_at event name = with_field name "" (λ f. to_str (field f event))

-- `isAmbiguousEvent`.
unfoldable pub is_ambiguous : Event → DnsFieldConfig → String → Bool
unfolding number_at text_at upper is_multicast_or_broadcast is_multicast_port is_set
is_ambiguous event config dns_id =
    let shown = upper (text_at event config.pkt_type_display_field) in
    let src_addr = to_str (field config.src_addr_field event) in
    let dst_addr = to_str (field config.dst_addr_field event) in
    is_multicast_type (number_at event config.pkt_type_field)
    || (str_eq shown "BROADCAST" || str_eq shown "MULTICAST")
    || (is_multicast_or_broadcast src_addr || is_multicast_or_broadcast dst_addr)
    || (is_multicast_port? (number_at event config.src_port_field)
        || is_multicast_port? (number_at event config.dst_port_field))
    || (not (is_set config.pkt_type_field)
        && not (is_set config.pkt_type_display_field)
        && (str_eq dns_id "0" || str_eq dns_id "0x0000" || str_eq dns_id "0000"))

abbrev pub if_positive : Option ℤ → Option ℤ
if_positive none = none
if_positive (some n) = if ltb_ℤ (pos 0) n then some n else none

-- `_receivedAt`, in milliseconds, when it is a number.
abbrev pub received_at : Value → Option ℤ
received_at (num n) = some (scale n 1000000)
received_at _ = none

-- `resolveEventTimeMs`, in nanoseconds.
unfoldable pub resolve_event_time : Event → DnsFieldConfig → Option ℤ
unfolding number_at scale
resolve_event_time event config =
    coalesce (if_positive (number_at event config.timestamp_field))
      (received_at (field "_receivedAt" event))

unfoldable pub normalize_name : String → String
unfolding trim lower strip_last
normalize_name name = strip_last b'.' (lower (trim name))
