-- ===== src/Tests/Helpers.antt =====
-- Calls of the helper of labztna/network_helper.py, on the manifest of the plans' tests.
use ztna_lab.Base.{
  text_key, pair_key, nat_eq, ap, Result, ◌≡◌, refl, [], codes, text_eq, rstrip, rstrip_by, ok,
}
use ztna_lab.Base.Dict
use ztna_lab.Json.{Json, lookup, field_names, without, text, object}
use ztna_lab.Auth.{encode_ascii, repeated, b64d, b64e, in_lifetime, issued_by}
use ztna_lab.Addresses.{
  network_key, network_beq, in_network, broadcast, is_multicast, is_unspecified, has_whole,
  has_part, collapses, covers_entire_ipv4,
}
use ztna_lab.Dnsmap.{canonical, has_forbidden, is_forbidden}
use ztna_lab.Gateway.{dotted}
use ztna_lab.Gateway.Packets.{decimal}
use ztna_lab.Manifest.{
  ManifestBinding, within, has_envelope_names, signed_part, signature_holds, check_body,
  check_signature, verify_fields, verify_envelope, append_field, lists_resource,
  require_manifest_binding, unsigned, ManifestSigner,
}
use ztna_lab.Routeplan.Build.{
  is_permitted, add_owned, add_network, parse_prefix, add_prefixes, parse_resource, add_parsed,
  add_resources, dns_texts, check_fake_ip, check_fake_ips, is_new_name, normalize_dns, raw_dns,
  checked_dns, plan_dns, plan_ip, plan_resources, plan_routes, plan_session, build_from,
}
use ztna_lab.Helper.{
  HelperError, NetworkChange, NetworkHelper, entry_beq, tuple_eq, difference, text_lt, pair_lt,
  insert_by, sorted_by, network_text, delta, target, is_applied, change, verified_plan, preview,
  apply, rollback, new_helper, no_change,
}
use ztna_lab.Helper.States.{here, next, applying, IsHelper, Reach-IsHelper, preview-apply}
use ztna_lab.Tests.Gateways.{externals}
use ztna_lab.Tests.Plans.{library, manifest, plan}

program : Unit {0}
unfolding text_eq rstrip rstrip_by Dict.get Dict.put lookup field_names without encode_ascii
    repeated b64d b64e in_lifetime issued_by network_beq in_network broadcast is_multicast
    is_unspecified has_whole has_part collapses covers_entire_ipv4 canonical has_forbidden
    is_forbidden dotted decimal within has_envelope_names signed_part signature_holds check_body
    check_signature verify_fields verify_envelope append_field lists_resource
    require_manifest_binding is_permitted add_owned add_network parse_prefix add_prefixes
    parse_resource add_parsed add_resources dns_texts check_fake_ip check_fake_ips is_new_name
    normalize_dns raw_dns checked_dns plan_dns plan_ip plan_resources plan_routes plan_session
    build_from entry_beq tuple_eq difference text_lt pair_lt insert_by sorted_by network_text delta
    target is_applied change verified_plan preview apply rollback
program = tt

abbrev pub signer : ManifestSigner
signer = record {
  verifier = record { public_key = []; key_id = codes "lab-manifest-1" };
  private_key = [];
}

abbrev binding : ManifestBinding
binding = record {
  session_id = codes "a";
  virtual_ip = codes "100.64.0.1";
  device_id = codes "laptop";
  lease_generation = 1;
  resource_id = codes "demo";
}

abbrev pub envelope : Json
envelope =
    object (append_field (unsigned signer 1000 120 manifest) (codes "signature") (text (codes "s")))

abbrev helper : NetworkHelper
helper = new_helper signer.verifier binding

abbrev after : NetworkHelper
after = record helper { state = target 1 plan }

-- The first call applies the plan, and reports its routes by their texts in order.
applied_first : apply externals library 1050 envelope helper ≡ (
  after,
  ok (record {
    before = helper.state;
    after = target 1 plan;
    added_routes = plan.routes;
    removed_routes = [];
    added_dns = plan.fake_dns;
    removed_dns = [];
  }),
)
unfolding program
applied_first = refl

Reach-IsHelper_example : IsHelper externals library signer.verifier binding after
Reach-IsHelper_example = Reach-IsHelper externals library signer.verifier binding after (
    next here (
      applying 1050 envelope
        (ap (λ (p : NetworkHelper × Result HelperError NetworkChange). p.0) applied_first)))

preview-apply_example :
    (preview externals library 1050 envelope helper
      ≡ (apply externals library 1050 envelope helper).1)
    × ((c : NetworkChange)
        → (apply externals library 1050 envelope helper).1 ≡ ok c
        → apply externals library 1050 envelope (apply externals library 1050 envelope helper).0 ≡ (
          (apply externals library 1050 envelope helper).0,
          ok (no_change (apply externals library 1050 envelope helper).0.state),
        ))
preview-apply_example = preview-apply externals library 1050 envelope helper
