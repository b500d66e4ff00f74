-- ===== src/Tests/SandboxRuns.antt =====
-- internal/sandbox/networkpolicy.go: a policy with one address, and a label.
use shclop.Sandbox.Labels.Valid.{label_value-IsLabel, IsLabel}
use shclop.Sandbox.Labels.{label_value, char_count}
use shclop.Sandbox.Network.Allowed.{build_runtime_network_policy-IsAllowed, IsAllowed}
use shclop.Sandbox.Network.{
  NetworkLibrary, NetworkPolicySpec, NetworkPolicy, network_policy_spec_from_config, rule_egress,
  backend_egress, vault_egress, EgressRule,
}
use shclop.Prelude.All.{All}
use shclop.Prelude.{◌≡◌, ◌≤◌, refl, true, [], ◌∷◌}

abbrev lib : NetworkLibrary
lib = record { to_lower = λ text. text; show_number = λ n. "1"; is_cidr = λ text. true }

abbrev office : EgressRule
office = record { name = "custom-1"; cidr = "10.1.0.0/16"; dns_name = ""; ports = 443 ∷ [] }

abbrev spec : NetworkPolicySpec
spec = record {
  enabled = true;
  mode = "restricted";
  allow_backend = true;
  allow_vault = true;
  allowed_egress = office ∷ [];
}

abbrev policy : NetworkPolicy
policy = record {
  name = "shclop-runtime-netpol-a1";
  labels =
      ("app.kubernetes.io/name", "shclop-agent-runtime")
      ∷ ("app.kubernetes.io/component", "agent-runtime")
      ∷ ("shclop.io/agent-id", "a1")
      ∷ ("shclop.io/sandbox-id", "s1")
      ∷ [];
  agent_label = "a1";
  egress = backend_egress ∷ vault_egress ∷ rule_egress office ∷ [];
}

build_runtime_network_policy-IsAllowed_example :
    (spec.enabled ≡ true) × ¬ (spec.mode ≡ "disabled") × All (IsAllowed lib spec) policy.egress
unfolding shclop.Sandbox.Network.build_runtime_network_policy shclop.Prelude.Text.trim_space
    shclop.Sandbox.Labels.runtime_labels label_value shclop.Prelude.Dict.insert
build_runtime_network_policy-IsAllowed_example =
    build_runtime_network_policy-IsAllowed lib "a1" "s1" spec {policy = policy} refl

-- The specification of a configuration with one address and nothing after its comma.
spec_of_config : network_policy_spec_from_config lib true " " "10.1.0.0/16, " ≡ spec
unfolding network_policy_spec_from_config shclop.Prelude.Text.trim_space
    shclop.Prelude.Text.split_on
spec_of_config = refl

label_value-IsLabel_example :
    (char_count (label_value (λ text. text) "Agent_1") ≤ 63)
    × IsLabel (label_value (λ text. text) "Agent_1")
label_value-IsLabel_example = label_value-IsLabel (λ text. text) "Agent_1"
