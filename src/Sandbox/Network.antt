-- ===== src/Sandbox/Network.antt =====
-- internal/sandbox/networkpolicy.go: where a runtime may connect to. `strings.ToLower`, the text of a number and
-- whether `net.ParseCIDR` takes a text are a `NetworkLibrary`.
pub mod Allowed
use Prim.Native.String.{◌++◌ as append}
use shclop.Prelude.{
  ℕ, ◌+◌, String, Bool, true, false, not, ◌||◌, Option, none, some, List, [], ◌∷◌, ◌++◌, map, ◌==◌,
  if◌then◌else◌,
}
use shclop.Prelude.Text.{trim_space, split_on}
use shclop.Prelude.Dict.{Dict}
use shclop.Store.Memory.{failure, Result, ok, err}
use shclop.Sandbox.Labels.{label_value, runtime_labels}

pub record NetworkLibrary : Type 0 where
  pub to_lower : String → String
  pub show_number : ℕ → String
  pub is_cidr : String → Bool

pub record EgressRule : Type 0 where
  pub name : String
  pub cidr : String
  pub dns_name : String
  pub ports : List ℕ

pub record NetworkPolicySpec : Type 0 where
  pub enabled : Bool
  pub mode : String
  pub allow_backend : Bool
  pub allow_vault : Bool
  pub allowed_egress : List EgressRule

abbrev mode_or_restricted : String → String
mode_or_restricted mode = if mode == "" then "restricted" else mode

-- The loop over the parts of the list, with the number of the rules so far; 44 is the comma.
unfoldable pub rules_from : NetworkLibrary → ℕ → List String → List EgressRule
rules_from lib index [] = []
rules_from lib index (raw ∷ rest) = elim (trim_space raw == "") [
  | true ↦ rules_from lib index rest
  | false ↦
      record {
        name = append "custom-" (lib.show_number (index + 1));
        cidr = trim_space raw;
        dns_name = "";
        ports = 443 ∷ [];
      }
      ∷ rules_from lib (index + 1) rest
]

unfoldable pub network_policy_spec_from_config :
    NetworkLibrary → Bool → String → String → NetworkPolicySpec
unfolding rules_from
network_policy_spec_from_config lib enabled mode cidrs = record {
  enabled = enabled;
  mode = mode_or_restricted (trim_space mode);
  allow_backend = true;
  allow_vault = true;
  allowed_egress = rules_from lib 0 (split_on 44 cidrs);
}

pub record PolicyPort : Type 0 where
  pub port : ℕ
  pub protocol : String

-- Without a destination the ports are open to any.
pub record PolicyEgress : Type 0 where
  pub to : Option String
  pub ports : List PolicyPort

pub record NetworkPolicy : Type 0 where
  pub name : String
  pub labels : Dict String
  pub agent_label : String
  pub egress : List PolicyEgress

abbrev pub tcp : ℕ → PolicyPort
tcp port = record { port = port; protocol = "TCP" }

abbrev pub udp : ℕ → PolicyPort
udp port = record { port = port; protocol = "UDP" }

abbrev pub backend_egress : PolicyEgress
backend_egress = record {
  to = none;
  ports = udp 53 ∷ tcp 53 ∷ tcp 80 ∷ tcp 443 ∷ tcp 4000 ∷ tcp 8080 ∷ [];
}

abbrev pub vault_egress : PolicyEgress
vault_egress = record { to = none; ports = tcp 8200 ∷ [] }

abbrev pub only_if : Bool → PolicyEgress → List PolicyEgress
only_if true egress = egress ∷ []
only_if false egress = []

abbrev pub rule_egress : EgressRule → PolicyEgress
rule_egress rule = record { to = some (trim_space rule.cidr); ports = map tcp rule.ports }

abbrev with_rule : PolicyEgress → Result (List PolicyEgress) → Result (List PolicyEgress)
with_rule egress (err e) = err e
with_rule egress (ok later) = ok (egress ∷ later)

-- A rule without a CIDR is skipped, and one that does not parse ends it.
unfoldable pub egress_of : NetworkLibrary → List EgressRule → Result (List PolicyEgress)
egress_of lib [] = ok []
egress_of lib (rule ∷ rules) =
    let later = egress_of lib rules in
    if trim_space rule.cidr == ""
    then later
    else if lib.is_cidr (trim_space rule.cidr)
    then with_rule (rule_egress rule) later
    else err (failure "invalid cidr")

abbrev policy_with :
    NetworkLibrary
    → String
    → String
    → NetworkPolicySpec
    → Result (List PolicyEgress)
    → Result (Option NetworkPolicy)
policy_with lib agent_id sandbox_id spec (err e) = err e
policy_with lib agent_id sandbox_id spec (ok rules) = ok (
    some (record {
      name = append "shclop-runtime-netpol-" agent_id;
      labels = runtime_labels lib.to_lower agent_id "" sandbox_id;
      agent_label = label_value lib.to_lower agent_id;
      egress =
          only_if spec.allow_backend backend_egress
          ++ (only_if spec.allow_vault vault_egress ++ rules);
    }))

-- No policy where it is switched off.
unfoldable pub build_runtime_network_policy :
    NetworkLibrary → String → String → NetworkPolicySpec → Result (Option NetworkPolicy)
unfolding egress_of
build_runtime_network_policy lib agent_id sandbox_id spec =
    if not spec.enabled || spec.mode == "disabled"
    then ok none
    else policy_with lib agent_id sandbox_id spec (egress_of lib spec.allowed_egress)
