-- ===== src/Tests/Plans.antt =====
-- A route plan of labztna/routeplan.py, and the packets and states that it allows.
use ztna_lab.Base.{
  Bytes, text_key, pair_key, nat_eq, ℕ, ◌^◌, ◌<◌, ◌≡◌, ◌↔◌, refl, true, some, none, [], ◌∷◌, Text,
  codes, text_eq, rstrip_by, to_be, from_be_onto, ok, err, if◌then◌else◌, false, ◌++◌, arith,
}
use ztna_lab.Base.Dict
use ztna_lab.Json.{
  pos, Json, boolean, number, text, object, Items, Fields, no_field, field, lookup, no_item, item,
  array,
}
use ztna_lab.Addresses.{
  network_key, network_beq, Network, ipv4, net4, AddressLibrary, in_network, has_route, broadcast,
  is_multicast, is_unspecified, has_whole, has_part, collapses, covers_entire_ipv4,
}
use ztna_lab.Addresses.Covers.{covers_entire_ipv4-has_route}
use ztna_lab.Dnsmap.{canonical, has_forbidden, is_forbidden}
use ztna_lab.Routeplan as Plan
use ztna_lab.Routeplan.{RouteEntry, RoutePlan, matches, longest, longest_of}
use ztna_lab.Routeplan.Lookup.{IsChosen, lookup-IsChosen}
use ztna_lab.Routeplan.Build.{
  is_permitted, add_owned, add_network, parse_prefix, add_prefixes, parse_resource, add_parsed,
  add_resources, dns_texts, check_fake_ip, check_fake_ips, is_new_name, normalize_dns, raw_dns,
  checked_dns, plan_dns, plan_ip, plan_resources, plan_routes, plan_session, build_from,
  build_route_plan, ambiguous_ownership, full_tunnel,
}
use ztna_lab.Routeplan.Build.Plans.{IsPlan, build_route_plan-IsPlan}
use ztna_lab.Policy.{ResourceDefinition}
use ztna_lab.Gateway.Packets.{acknowledged, handle_packets}
use ztna_lab.Protocol.Frame.{pong, check_frame, pack, encode}
use ztna_lab.Protocol.Codec.{Codec, init}
use ztna_lab.Tests.Gateways.{externals, session}
use ztna_lab.L3.{L3Packet, encode_packet, decode_packet}
use ztna_lab.L3.Frames.{packet_to_frame, l3_frame}
use ztna_lab.L3.Frames.Allowed.{handle_packets-packet_to_frame}

program : Unit {0}
unfolding text_eq rstrip_by to_be from_be_onto Dict.get Dict.put lookup network_beq in_network
    has_route broadcast is_multicast is_unspecified has_whole has_part collapses covers_entire_ipv4
    canonical has_forbidden is_forbidden matches longest longest_of Plan.lookup is_permitted
    add_owned add_network parse_prefix add_prefixes parse_resource add_parsed add_resources
    dns_texts check_fake_ip check_fake_ips is_new_name normalize_dns raw_dns checked_dns plan_dns
    plan_ip plan_resources plan_routes plan_session build_from build_route_plan encode_packet
    decode_packet packet_to_frame check_frame pack encode init
program = tt

-- 10.0.0.0/8, 10.20.0.0/16, and the halves of the whole space.
abbrev wide : Network
wide = record { base = 167772160; prefixlen = 8 }

abbrev narrow : Network
narrow = record { base = 169082880; prefixlen = 16 }

abbrev low_half : Network
low_half = record { base = 0; prefixlen = 1 }

abbrev high_half : Network
high_half = record { base = 2147483648; prefixlen = 1 }

abbrev pub library : AddressLibrary
library = record {
  ip_address = λ t.
      if text_eq t (codes "100.64.0.1")
      then some (ipv4 1681915905)
      else if text_eq t (codes "198.18.0.1")
      then some (ipv4 3323068417)
      else none;
  ip_network = λ t.
      if text_eq t (codes "10.0.0.0/8")
      then some (net4 wide)
      else if text_eq t (codes "10.20.0.0/16")
      then some (net4 narrow)
      else if text_eq t (codes "0.0.0.0/1")
      then some (net4 low_half)
      else if text_eq t (codes "128.0.0.0/1")
      then some (net4 high_half)
      else none;
  lower = λ t. t;
}

abbrev resource : Text → Text → Text → Json
resource id first second = object (
    field (codes "id") (text id)
      (field (codes "routes") (array (item (text first) (item (text second) no_item))) no_field))

abbrev session_part : Json
session_part = object (
    field (codes "id") (text (codes "a")) (
      field (codes "virtual_ip") (text (codes "100.64.0.1")) (
        field (codes "lease_generation") (number (pos 1))
          (field (codes "device_id") (text (codes "laptop")) no_field))))

abbrev pub manifest_with : Items → Fields
manifest_with resources = field (codes "version") (number (pos 1)) (
    field (codes "split_tunnel") (boolean true) (
      field (codes "route_installation") (text (codes "client-memory-only")) (
        field (codes "resources") (array resources) (
          field (codes "dns")
            (object (field (codes "demo.lab.") (text (codes "198.18.0.1")) no_field))
            (field (codes "manifest_hash") (text (codes "f"))
              (field (codes "session") session_part no_field))))))

abbrev pub manifest : Fields
manifest =
    manifest_with
      (item (resource (codes "demo") (codes "10.0.0.0/8") (codes "10.20.0.0/16")) no_item)

abbrev entry : Network → RouteEntry
entry n = record { prefix = n; resource_id = codes "demo"; next_hop = codes "100.64.0.1" }

abbrev pub plan : RoutePlan
plan = record {
  version = number (pos 1);
  virtual_ip = 1681915905;
  routes = entry wide ∷ entry narrow ∷ [];
  fake_dns = (codes "demo.lab", codes "198.18.0.1") ∷ [];
}

built : build_route_plan library (object manifest) ≡ ok plan
unfolding program
built = refl

two_owners :
    build_route_plan library (
      object (
        manifest_with (
          item
            (resource (codes "demo") (codes "10.0.0.0/8") (codes "10.20.0.0/16"))
            (item (resource (codes "other") (codes "10.0.0.0/8") (codes "10.20.0.0/16")) no_item))))
    ≡ err ambiguous_ownership
unfolding program
two_owners = refl

two_halves :
    build_route_plan library (
      object (
        manifest_with
          (item (resource (codes "demo") (codes "0.0.0.0/1") (codes "128.0.0.0/1")) no_item)))
    ≡ err full_tunnel
unfolding program
two_halves = refl

-- 10.20.0.1 goes by the narrow route.
narrow_chosen : Plan.lookup (ipv4 169082881) plan ≡ some (entry narrow)
unfolding program
narrow_chosen = refl

build_route_plan-IsPlan_example : IsPlan library plan
build_route_plan-IsPlan_example = build_route_plan-IsPlan library (object manifest) plan built

lookup-IsChosen_example : IsChosen 169082881 plan.routes (Plan.lookup (ipv4 169082881) plan)
lookup-IsChosen_example = lookup-IsChosen 169082881 plan

covers_entire_ipv4-has_route_example :
    (covers_entire_ipv4 (low_half ∷ high_half ∷ []) ≡ true)
    ↔ ((a : ℕ) → a < 2 ^ 32 → has_route a (low_half ∷ high_half ∷ []) ≡ true)
covers_entire_ipv4-has_route_example = covers_entire_ipv4-has_route (low_half ∷ high_half ∷ [])

abbrev packet : L3Packet
packet = record { source = 1681915905; destination = 169082881; payload = b'h' ∷ b'i' ∷ [] }

abbrev packet_bytes : Bytes
packet_bytes = 100 ∷ 64 ∷ 0 ∷ 1 ∷ 10 ∷ 20 ∷ 0 ∷ 1 ∷ 0 ∷ 0 ∷ 0 ∷ 2 ∷ b'h' ∷ b'i' ∷ []

framed : packet_to_frame 0 packet plan ≡ ok (l3_frame 0 packet_bytes)
unfolding program
framed = refl

abbrev definition : ResourceDefinition
definition = record {
  resource_id = codes "demo";
  host = codes "127.0.0.1";
  port = 8080;
  domains = [];
  routes = wide ∷ [];
  actions = codes "read" ∷ [];
}

routed : has_route 169082881 (wide ∷ []) ≡ true
unfolding program
routed = refl

abbrev start : Codec
start = record {
  buffer = [];
  streams = record {
    next_sequence = [];
    stream_kind = [];
    closed_streams = [];
    is_closed = false;
    frames = 0;
    max_frames = 2;
  };
}

start_made : init 2 ≡ ok start
unfolding program
start_made = refl

abbrev frame_bytes : Bytes
frame_bytes =
    (b'Z' ∷ b'T' ∷ b'L' ∷ b'1' ∷ 1 ∷ 3 ∷ 0 ∷ 0 ∷ 0 ∷ 0 ∷ 0 ∷ 1 ∷ 0 ∷ 0 ∷ 0 ∷ 0 ∷ 0 ∷ 0 ∷ 0 ∷ 0 ∷ 0
      ∷ 0 ∷ 0 ∷ 14 ∷ [])
    ++ packet_bytes

frame_encodes : encode (l3_frame 0 packet_bytes) ≡ ok frame_bytes
unfolding program
frame_encodes = refl

handle_packets-packet_to_frame_example :
    handle_packets externals session definition (frame_bytes ∷ []) start
    ≡ acknowledged packet
        (ok (record { frame_type = pong; sequence = 0; payload = []; stream_id = 0; flags = 0 }))
handle_packets-packet_to_frame_example =
    handle_packets-packet_to_frame 0 packet plan (l3_frame 0 packet_bytes) framed externals session
      definition [] start frame_bytes start_made frame_encodes refl routed (omega arith)
