-- ===== src/Policy/Decisions.antt =====
-- What `PolicyEngine.decide` of labztna/policy.py allows.
use ztna_lab.Base.{
  text_key, ◌≤◌, ◌≡◌, ◌↔◌, true, Option, some, arith, length, contains, Text, codes, text_eq_iff,
  starts_with,
}
use ztna_lab.Base.Dict
use ztna_lab.Policy.{
  DevicePosture, is_compliant, ResourceDefinition, ResourceRegistry, decide, decide_resource,
}

pub record IsCompliant (d : DevicePosture) : Type 0 where
  pub named : 1 ≤ length d.device_id
  pub named_short : length d.device_id ≤ 128
  pub system : d.os ≡ codes "windows-lab"
  pub is_managed : d.managed ≡ true
  pub client : starts_with (codes "ztna-lab/") d.client_version ≡ true
  pub keyed : length d.public_key ≡ 32

pub is_compliant_iff : (d : DevicePosture) → (is_compliant d ≡ true) ↔ IsCompliant d
unfolding is_compliant
is_compliant_iff d = ground (arith, text_eq_iff d.os (codes "windows-lab"))

pub record IsAllowed (registry : ResourceRegistry) (subject resource_id action : Text)
    (d : DevicePosture) : Type 0 where
  pub subject_named : 1 ≤ length subject
  pub subject_short : length subject ≤ 128
  pub compliant : IsCompliant d
  pub resource : ResourceDefinition
  pub registered : Dict.get resource_id registry ≡ some resource
  pub listed : contains action resource.actions ≡ true

module _ (registry : ResourceRegistry) (subject resource_id action : Text) (d : DevicePosture) where
  allowed_parts :
      (o : Option ResourceDefinition)
      → (decide_resource action o).allowed ≡ true
      → (r : ResourceDefinition) × (o ≡ some r) × (contains action r.actions ≡ true)
  allowed_parts o = ground arith

  allowed_conditions :
      (decide registry subject resource_id action d).allowed ≡ true
      → IsAllowed registry subject resource_id action d
  unfolding decide
  allowed_conditions h =
      let (r, found, listed) = allowed_parts (Dict.get resource_id registry) (ground arith) in
      let compliant : is_compliant d ≡ true = ground arith in
      record {
        subject_named = ground arith;
        subject_short = ground arith;
        compliant = (is_compliant_iff d).0 compliant;
        resource = r;
        registered = found;
        listed = listed;
      }

  conditions_allow :
      IsAllowed registry subject resource_id action d
      → (decide registry subject resource_id action d).allowed ≡ true
  unfolding decide
  conditions_allow h =
      let compliant : is_compliant d ≡ true = (is_compliant_iff d).1 h.compliant in
      ground (arith, compliant, h.registered, h.listed, h.subject_named, h.subject_short)

  -- `decide` allows a request exactly when the subject is named in 128 characters at most, the
  -- device is compliant, and the resource is registered with the action.
  pub decide-IsAllowed :
      ((decide registry subject resource_id action d).allowed ≡ true)
      ↔ IsAllowed registry subject resource_id action d
  decide-IsAllowed = (allowed_conditions, conditions_allow)
