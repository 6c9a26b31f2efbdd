-- ===== src/Policy.antt =====
-- `DevicePosture`, `ResourceDefinition` and `PolicyEngine` of labztna/policy.py.
pub mod Decisions
pub mod Resources
use ztna_lab.Base.{
  text_key, ℕ, Bool, true, false, not, ◌&&◌, ◌||◌, Option, none, some, List, leb, ltb, ◌==◌,
  if◌then◌else◌, length, contains, Text, codes, Bytes, text_eq, starts_with,
}
use ztna_lab.Base.Dict
use ztna_lab.Base.Dict.{Dict}
use ztna_lab.Addresses.{Network}

pub record DevicePosture : Type 0 where
  pub device_id : Text
  pub os : Text
  pub managed : Bool
  pub client_version : Text
  pub public_key : Bytes

-- `is_compliant`
unfoldable pub is_compliant : DevicePosture → Bool
is_compliant d =
    (leb 1 (length d.device_id) && leb (length d.device_id) 128)
    && (text_eq d.os (codes "windows-lab")
        && (d.managed
            && (starts_with (codes "ztna-lab/") d.client_version && (length d.public_key == 32))))

-- The routes are the parsed networks of the strings that the code keeps.
pub record ResourceDefinition : Type 0 where
  pub resource_id : Text
  pub host : Text
  pub port : ℕ
  pub domains : List Text
  pub routes : List Network
  pub actions : List Text

abbrev pub ResourceRegistry : Type 0
ResourceRegistry = Dict Text ResourceDefinition

-- The strings that `PolicyDecision.reason` takes.
pub data Reason : Type 0 where
  invalid_subject device_not_compliant unknown_resource action_not_allowed policy_allow : Reason

pub record PolicyDecision : Type 0 where
  pub allowed : Bool
  pub reason : Reason

abbrev decide_resource : Text → Option ResourceDefinition → PolicyDecision
decide_resource action none = record { allowed = false; reason = unknown_resource }
decide_resource action (some resource) =
    if not (contains action resource.actions)
    then record { allowed = false; reason = action_not_allowed }
    else record { allowed = true; reason = policy_allow }

-- `PolicyEngine.decide`
unfoldable pub decide : ResourceRegistry → Text → Text → Text → DevicePosture → PolicyDecision
decide registry subject resource_id action posture =
    if length subject == 0 || ltb 128 (length subject)
    then record { allowed = false; reason = invalid_subject }
    else if not (is_compliant posture)
    then record { allowed = false; reason = device_not_compliant }
    else decide_resource action (Dict.get resource_id registry)
