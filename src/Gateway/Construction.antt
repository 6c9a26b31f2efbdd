-- ===== src/Gateway/Construction.antt =====
-- `Gateway.__init__` of labztna/gateway.py up to its server. The audit log is the one it is given
-- or a new one, and the policy engine is that of the registry.
use ztna_lab.Base.{
  ℕ, Bool, true, not, ◌&&◌, ◌||◌, [], ◌∷◌, leb, ◌==◌, length, Text, Result, ok, err, if◌then◌else◌,
}
use ztna_lab.Netguard.{is_loopback}
use ztna_lab.Auth.{TokenVerifier}
use ztna_lab.Audit.{AuditLog}
use ztna_lab.Policy.{ResourceRegistry}
use ztna_lab.Session.{SessionStore}
use ztna_lab.Replay.{empty}
use ztna_lab.Gateway.{Gateway}

pub data GatewayError : Type 0 where
  refused_host invalid_manifest_hash unsupported_manifest_version : GatewayError

-- No character outside `"0123456789abcdef"`.
unfoldable pub are_hex_digits : Text → Bool
are_hex_digits [] = true
are_hex_digits (c ∷ t) = ((leb 48 c && leb c 57) || (leb 97 c && leb c 102)) && are_hex_digits t

unfoldable pub new_gateway :
    TokenVerifier
    → ResourceRegistry
    → SessionStore
    → AuditLog
    → Text
    → ℕ
    → Text
    → Result GatewayError Gateway
new_gateway signer registry sessions audit manifest_hash manifest_version host =
    if not (is_loopback host)
    then err refused_host
    else if not (length manifest_hash == 64) || not (are_hex_digits manifest_hash)
    then err invalid_manifest_hash
    else if not (manifest_version == 1)
    then err unsupported_manifest_version
    else ok (record {
      signer = signer;
      registry = registry;
      sessions = sessions;
      audit = audit;
      manifest_hash = manifest_hash;
      manifest_version = manifest_version;
      replay = empty;
    })
