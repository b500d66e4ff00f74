-- ===== src/Sandbox/Network/Allowed.antt =====
-- internal/sandbox/networkpolicy.go: what a policy lets through.
use shclop.Prelude.{
  ℕ, ap, map, ◌≡◌, ◌⊎◌, refl, inl, inr, subst, String, Bool, true, false, some, List, [], ◌∷◌, ◌++◌,
  ◌==◌, eq_iff, arith, Bool-cases,
}
use mathlib.Core.List.{Mem, mem-cons_self, mem-cons_of_mem}
use shclop.Prelude.All.{All, All-append}
use shclop.Prelude.Text.{trim_space}
use shclop.Store.Memory.{ok, Result-cases}
use shclop.Sandbox.Network.{
  NetworkLibrary, NetworkPolicySpec, NetworkPolicy, EgressRule, PolicyEgress, PolicyPort, tcp,
  backend_egress, vault_egress, only_if, rule_egress, egress_of, build_runtime_network_policy,
}

abbrev pub port_of : PolicyPort → ℕ
port_of p = p.port

abbrev pub IsTcp : PolicyPort → Type 0
IsTcp p = p.protocol ≡ "TCP"

-- The backend's egress: DNS, HTTP, HTTPS and the ports 4000 and 8080.
abbrev pub IsBackend : PolicyEgress → Type 0
IsBackend e =
    e.ports
    ≡ record { port = 53; protocol = "UDP" }
      ∷ record { port = 53; protocol = "TCP" }
      ∷ record { port = 80; protocol = "TCP" }
      ∷ record { port = 443; protocol = "TCP" }
      ∷ record { port = 4000; protocol = "TCP" }
      ∷ record { port = 8080; protocol = "TCP" }
      ∷ []

-- The egress of one of the rules: to its CIDR, which is valid, and over TCP to its ports.
abbrev pub IsRule : NetworkLibrary → List EgressRule → PolicyEgress → Type 0
IsRule lib rules e =
    (rule : EgressRule) × Mem rule rules
    × (e.to ≡ some (trim_space rule.cidr))
    × (lib.is_cidr (trim_space rule.cidr) ≡ true)
    × (map port_of e.ports ≡ rule.ports)
    × All IsTcp e.ports

-- An egress of a policy: the one to the backend, the one to the vault, or one of a rule.
abbrev pub IsAllowed : NetworkLibrary → NetworkPolicySpec → PolicyEgress → Type 0
IsAllowed lib spec e =
    ((spec.allow_backend ≡ true) × IsBackend e)
    ⊎ (((spec.allow_vault ≡ true) × (e.ports ≡ record { port = 8200; protocol = "TCP" } ∷ []))
        ⊎ IsRule lib spec.allowed_egress e)

tcp-IsTcp : (ports : List ℕ) → (map port_of (map tcp ports) ≡ ports) × All IsTcp (map tcp ports)
tcp-IsTcp [] = (refl, tt)
tcp-IsTcp (port ∷ ports) =
    let (same, rest) = tcp-IsTcp ports in (ap (λ later. port ∷ later) same, (refl, rest))

-- The rules that are made from a part of the specification's.
egress_of-IsAllowed :
    (lib : NetworkLibrary) (spec : NetworkPolicySpec) (rules : List EgressRule)
    {egress : List PolicyEgress}
    → ((rule : EgressRule) → Mem rule rules → Mem rule spec.allowed_egress)
    → egress_of lib rules ≡ ok egress
    → All (IsAllowed lib spec) egress
unfolding egress_of
egress_of-IsAllowed lib spec [] {egress} part h =
    subst (All (IsAllowed lib spec)) {x = []} {y = egress} (ground (arith, h)) tt
egress_of-IsAllowed lib spec (rule ∷ rules) {egress} part h =
    let later_part = λ (x : EgressRule) (m : Mem x rules). part x (mem-cons_of_mem rule m) in
    elim (Bool-cases (trim_space rule.cidr == "")) [
      | inl nothing ↦ egress_of-IsAllowed lib spec rules later_part (ground (arith, nothing, h))
      | inr some_cidr ↦ elim (Bool-cases (lib.is_cidr (trim_space rule.cidr))) [
        | inr bad ↦ absurd (ground (arith, some_cidr, bad, h))
        | inl good ↦ elim (Result-cases (egress_of lib rules)) [
          | inr (e, failed) ↦ absurd (ground (arith, some_cidr, good, failed, h))
          | inl (later, rest) ↦
              let (ports, protocols) = tcp-IsTcp rule.ports in
              subst (All (IsAllowed lib spec)) {x = rule_egress rule ∷ later} {y = egress}
                (ground (arith, some_cidr, good, rest, h))
                (
                  inr (inr (rule, part rule mem-cons_self, refl, good, ports, protocols)),
                  egress_of-IsAllowed lib spec rules later_part rest,
                )
        ]
      ]
    ]

backend-IsAllowed :
    (lib : NetworkLibrary) (spec : NetworkPolicySpec) (b : Bool)
    → spec.allow_backend ≡ b
    → All (IsAllowed lib spec) (only_if b backend_egress)
backend-IsAllowed lib spec true on = (inl (on, refl), tt)
backend-IsAllowed lib spec false off = tt

vault-IsAllowed :
    (lib : NetworkLibrary) (spec : NetworkPolicySpec) (b : Bool)
    → spec.allow_vault ≡ b
    → All (IsAllowed lib spec) (only_if b vault_egress)
vault-IsAllowed lib spec true on = (inr (inl (on, refl)), tt)
vault-IsAllowed lib spec false off = tt

-- A policy is made only where it is switched on. Each of its egress rules names the ports of the backend, or that of the
-- vault, where it is allowed; or it is made from a rule of the specification, for its CIDR, which is
-- valid, and with TCP and exactly the ports of the rule.
pub build_runtime_network_policy-IsAllowed :
    (lib : NetworkLibrary) (agent_id sandbox_id : String) (spec : NetworkPolicySpec)
    {policy : NetworkPolicy}
    → build_runtime_network_policy lib agent_id sandbox_id spec ≡ ok (some policy)
    → (spec.enabled ≡ true) × ¬ (spec.mode ≡ "disabled") × All (IsAllowed lib spec) policy.egress
unfolding build_runtime_network_policy
build_runtime_network_policy-IsAllowed lib agent_id sandbox_id spec {policy} h =
    elim (Result-cases (egress_of lib spec.allowed_egress)) [
      | inr (e, failed) ↦ absurd (ground (arith, failed, h))
      | inl (rules, made) ↦ (
        ground (arith, made, h),
        (λ off. ground (arith, made, h, off, eq_iff spec.mode "disabled")),
        subst (All (IsAllowed lib spec))
            {x = only_if spec.allow_backend backend_egress
              ++ (only_if spec.allow_vault vault_egress ++ rules)}
            {y = policy.egress} (ground (arith, made, h))
            (All-append (IsAllowed lib spec) (only_if spec.allow_backend backend_egress)
              (only_if spec.allow_vault vault_egress ++ rules)
              (backend-IsAllowed lib spec spec.allow_backend refl)
              (All-append (IsAllowed lib spec) (only_if spec.allow_vault vault_egress) rules
                (vault-IsAllowed lib spec spec.allow_vault refl)
                (egress_of-IsAllowed lib spec spec.allowed_egress (λ rule m. m) made))),
      )
    ]
