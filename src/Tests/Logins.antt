-- ===== src/Tests/Logins.antt =====
-- Requests to labztna/control.py: a login, and the logout of a session, with the stand-ins of the
-- other tests.
use ztna_lab.Base.{
  text_key, pair_key, nat_eq, ◌≡◌, refl, true, false, none, some, [], ◌∷◌, codes, text_eq, pair_eq,
  starts_with, drop, rstrip, to_be, from_be_onto, ok, List, contains, ◌⊎◌,
}
use ztna_lab.Base.Dict
use ztna_lab.Json.{pos, text, object, lookup, assign, all_texts}
use ztna_lab.Auth.{
  Externals, encode_ascii, repeated, b64d, b64e, split_dots, loaded, loaded_parts, opened_parts,
  header_supported, rightly_issued, in_lifetime, issued_by, check_claims, verify,
}
use ztna_lab.Auth.Signer.{claim_text, claim_number, seal, issue}
use ztna_lab.Audit.{record_event}
use ztna_lab.Ipam.{allocate, release, discard}
use ztna_lab.Policy.{is_compliant, decide}
use ztna_lab.Manifest.{issue_envelope, append_field, unsigned}
use ztna_lab.Session.{
  Session, sweep, reclaimed_ids, release_all, scavenge, create, get_active, drop_session, revoke,
  heartbeat,
}
use ztna_lab.Session.Calls.{Call, beats, creates, sweeps, perform_all}
use ztna_lab.Session.Ended.{created_ids}
use ztna_lab.Replay
use ztna_lab.Replay.{evict, consume, consume_control_request_id}
use ztna_lab.Gateway.{dotted}
use ztna_lab.Otp.{
  normalized, totp_key, code_of_digest, totp_at, all_chars, compare_digest, try_windows,
  matching_totp_step, purge, use_step, consume_otp,
}
use ztna_lab.Control.{
  ControlPlane, control_proof_message, claims_match, proof_checked, authorized_session,
}
use ztna_lab.Control.Login.{
  invalid_login_request, PasswordExternals, Readings, LoginRequest, LoginGrant, verify_password,
  parse_login, decode_device_key, grant_for, manifest_for, manifest_envelope_for, login, post_login,
  posture_of,
}
use ztna_lab.Control.Login.Granted.{IsLogin, login-IsLogin}
use ztna_lab.Control.Access.{IsAuthorized}
use ztna_lab.Control.Routes.{
  Builtins, Exchange, logged_out, login_refused, read_json, post_logout, post_heartbeat, do_post,
  do_get, status_of,
}
use ztna_lab.Control.Routes.Logout.{post_logout_ends}
use ztna_lab.Tests.Policies.{key, device}
use ztna_lab.Tests.Gateways.{externals}
use ztna_lab.Tests.Controls.{control, request}
use ztna_lab.Tests.Codes.{codes_externals}

program : Unit {0}
unfolding Dict.get Dict.put Dict.remove text_eq pair_eq starts_with rstrip to_be from_be_onto lookup
    assign all_texts encode_ascii repeated b64d b64e split_dots loaded loaded_parts opened_parts
    header_supported rightly_issued in_lifetime issued_by check_claims verify claim_text
    claim_number seal issue record_event allocate release discard is_compliant decide issue_envelope
    append_field sweep reclaimed_ids release_all scavenge create get_active drop_session revoke
    heartbeat Replay.discard evict consume consume_control_request_id dotted normalized totp_key
    code_of_digest totp_at all_chars compare_digest try_windows matching_totp_step purge use_step
    consume_otp control_proof_message claims_match proof_checked authorized_session verify_password
    parse_login decode_device_key grant_for manifest_for manifest_envelope_for login post_login
    read_json post_logout post_heartbeat do_post do_get status_of
program = tt

-- A device key is read as the key of the policies' device.
abbrev libraries : Externals
libraries = record externals { urlsafe_b64decode = λ t. some key }

abbrev passwords : PasswordExternals
passwords = record { utf8 = λ t. some t; pbkdf2 = λ password salt. password }

abbrev readings : Readings
readings = record {
  otp_matched = 1000;
  otp_purged = 1000;
  swept = 1000;
  created = 1000;
  granted = 1000;
  enveloped = 1000;
  session_id = codes "b";
  token_id = codes "12345678";
  stamp = codes "now";
}

abbrev login_request : LoginRequest
login_request = record {
  username = codes "u";
  password = codes "pw";
  otp = codes "000034";
  device_id = codes "laptop";
  os = codes "windows-lab";
  managed = true;
  client_version = codes "ztna-lab/0.2";
  device_public_key = codes "0123456789012345678901234567890123456789012";
}

-- One address is free.
abbrev ready : ControlPlane
ready = record control {
  sessions = record control.sessions {
    ip_pool = record {
      available = 1681915906 ∷ [];
      allocated = (codes "a", 1681915905) ∷ [];
      released = [];
    };
  };
}

abbrev new_session : Session
new_session = record {
  session_id = codes "b";
  subject = codes "u";
  posture = posture_of libraries login_request;
  virtual_ip = 1681915906;
  lease_generation = 2;
  expires_at = 1300;
  absolute_expires_at = 4600;
  last_seen = 1000;
  revoked = false;
}

abbrev builtins : Builtins
builtins = record {
  libraries = libraries;
  codes_of = codes_externals;
  passwords = passwords;
  parse_int = λ t. some (pos 1010);
  strip = λ t. t;
}

abbrev exchange : Exchange
exchange = record {
  request = record request { method = codes "POST"; path = codes "/v1/logout" };
  content_length = codes "1010";
  stream = codes "p===";
  admin_header = [];
  verified = 1010;
  seen = 1010;
  now = 1010;
  beat = 1010;
  readings = readings;
}

logged_out_now : (post_logout builtins exchange control).1 ≡ logged_out
unfolding program
logged_out_now = refl

routed : (do_post builtins exchange control).1 ≡ logged_out
unfolding program
routed = refl

abbrev grant : LoginGrant
grant = record {
  session = new_session;
  token = codes "..s";
  envelope = object (
      append_field (unsigned ready.manifest_signer 1000 120 (manifest_for ready new_session))
        (codes "signature") (text (codes "s")));
}

logged_in_now :
    (login libraries codes_externals passwords readings login_request ready).1 ≡ ok grant
unfolding program
logged_in_now = refl

missing_fields :
    (do_post builtins
      (record exchange { request = record request { path = codes "/v1/login" } })
      control).1
    ≡ login_refused invalid_login_request
unfolding program
missing_fields = refl

unknown_path : status_of (do_get builtins exchange control).1 ≡ some 404
unfolding program
unknown_path = refl

login-IsLogin_example :
    IsLogin libraries codes_externals passwords readings login_request ready
      (login libraries codes_externals passwords readings login_request ready).0
      grant
login-IsLogin_example =
    login-IsLogin libraries codes_externals passwords readings login_request ready grant
      logged_in_now

-- The session is asked for once more, and another one is created.
abbrev later_calls : List Call
later_calls =
    beats 1011 (codes "a") ∷ creates 1012 1012 (codes "v") device (codes "b") ∷ sweeps 1013 ∷ []

post_logout_ends_example :
    (s : Session) × IsAuthorized builtins.libraries builtins.parse_int exchange.verified
      exchange.seen exchange.now
      (builtins.strip (drop 7 exchange.request.authorization))
      exchange.request
      control
      s
    × ((contains s.session_id (created_ids later_calls) ≡ true)
        ⊎ ((get_active 1020 s.session_id
              (perform_all later_calls (post_logout builtins exchange control).0.sessions)).1
            ≡ none))
post_logout_ends_example =
    post_logout_ends builtins exchange 1020 later_calls control logged_out_now
