-- ===== src/Tests/Policies.antt =====
-- A device of labztna/policy.py that may read the demo resource.
use ztna_lab.Base.{text_key, ◌≡◌, refl, true, false, [], ◌∷◌, Bytes, codes, text_eq, starts_with}
use ztna_lab.Base.Dict
use ztna_lab.Policy.{
  DevicePosture, is_compliant, ResourceDefinition, ResourceRegistry, decide, unknown_resource,
  policy_allow,
}

program : Unit {0}
unfolding is_compliant decide Dict.get text_eq starts_with
program = tt

abbrev pub key : Bytes
key =
    1 ∷ 2 ∷ 3 ∷ 4 ∷ 5 ∷ 6 ∷ 7 ∷ 8 ∷ 1 ∷ 2 ∷ 3 ∷ 4 ∷ 5 ∷ 6 ∷ 7 ∷ 8 ∷ 1 ∷ 2 ∷ 3 ∷ 4 ∷ 5 ∷ 6 ∷ 7 ∷ 8
    ∷ 1 ∷ 2 ∷ 3 ∷ 4 ∷ 5 ∷ 6 ∷ 7 ∷ 8 ∷ []

abbrev pub device : DevicePosture
device = record {
  device_id = codes "laptop";
  os = codes "windows-lab";
  managed = true;
  client_version = codes "ztna-lab/0.2";
  public_key = key;
}

abbrev pub resource : ResourceDefinition
resource = record {
  resource_id = codes "demo";
  host = codes "127.0.0.1";
  port = 8080;
  domains = codes "demo.internal" ∷ [];
  routes = record { base = 171704320; prefixlen = 16 } ∷ [];
  actions = codes "read" ∷ [];
}

abbrev pub registry : ResourceRegistry
registry = (codes "demo", resource) ∷ []

allowed :
    decide registry (codes "u") (codes "demo") (codes "read") device
    ≡ record { allowed = true; reason = policy_allow }
unfolding program
allowed = refl

unknown :
    decide registry (codes "u") (codes "other") (codes "read") device
    ≡ record { allowed = false; reason = unknown_resource }
unfolding program
unknown = refl
