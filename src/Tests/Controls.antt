-- ===== src/Tests/Controls.antt =====
-- A request to the control plane of labztna/control.py that gets its session.
use ztna_lab.Base.{
  [], ◌∷◌, contains, false, text_key, pair_key, nat_eq, ◌≡◌, refl, Option, some, Text, codes,
  text_eq, pair_eq, starts_with, drop, ok,
}
use ztna_lab.Base.Dict
use ztna_lab.Json.{no_field, ℤ, pos, lookup, all_texts}
use ztna_lab.Auth.{
  encode_ascii, repeated, b64d, split_dots, loaded, loaded_parts, opened_parts, header_supported,
  rightly_issued, in_lifetime, issued_by, check_claims, verify,
}
use ztna_lab.Session.{get_active}
use ztna_lab.Replay.Window.{Tracks, keep_last, empty-Tracks}
use ztna_lab.Replay.{empty, discard, evict, consume, consume_control_request_id}
use ztna_lab.Gateway.{dotted}
use ztna_lab.Control.{
  ControlPlane, Request, control_proof_message, claims_match, proof_checked, authorized_session,
}
use ztna_lab.Control.Access.{IsAuthorized, authorized_session-IsAuthorized}
use ztna_lab.Tests.Gateways.{externals, session, gateway}

program : Unit {0}
unfolding Dict.get text_eq pair_eq starts_with lookup all_texts encode_ascii repeated b64d
    split_dots loaded loaded_parts opened_parts header_supported rightly_issued in_lifetime
    issued_by check_claims verify get_active discard evict consume consume_control_request_id dotted
    control_proof_message claims_match proof_checked authorized_session
program = tt

abbrev pub control : ControlPlane
control = record {
  username = codes "u";
  password_hash = record { salt = []; digest = codes "pw" };
  otp_secret = codes "AB CD";
  resource_id = codes "demo";
  gateway_port = 8443;
  signer = record { verifier = gateway.signer; private_key = [] };
  registry = gateway.registry;
  sessions = gateway.sessions;
  audit = gateway.audit;
  admin_secret = codes "0123456789abcdef";
  manifest_base = no_field;
  manifest_version = 1;
  manifest_hash = codes "m";
  manifest_signer = record {
    verifier = record { public_key = []; key_id = codes "lab-manifest-1" };
    private_key = [];
  };
  grant_ttl_seconds = 120;
  used_otp_steps = [];
  control_replay = empty;
}

abbrev pub request : Request
request = record {
  method = codes "GET";
  path = codes "/manifest";
  authorization = codes "Bearer h.p.s";
  request_id = codes "r1";
  timestamp = codes "1010";
  proof = codes "s";
}

-- A stand-in for `int` that reads any text as 1010.
abbrev read_int : Text → Option ℤ
read_int t = some (pos 1010)

abbrev no_strip : Text → Text
no_strip t = t

authorized :
    (authorized_session externals read_int no_strip 1010 1010 1010 request control).1 ≡ ok session
unfolding program
authorized = refl

authorized_session-IsAuthorized_example :
    IsAuthorized externals read_int 1010 1010 1010
      (no_strip (drop 7 request.authorization))
      request
      control
      session
    × (contains (codes "a", codes "r1") (keep_last 4096 []) ≡ false)
    × Tracks 4096
        ((codes "a", codes "r1") ∷ [])
        (authorized_session externals read_int no_strip 1010 1010 1010 request
          control).0.control_replay
authorized_session-IsAuthorized_example =
    authorized_session-IsAuthorized externals read_int no_strip 1010 1010 1010 request control
      session [] (empty-Tracks 4096) authorized
