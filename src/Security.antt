-- ===== src/Security.antt =====
-- internal/security/audit.go, internal/security/policy.go: the scan of a text by fixed rules, and the
-- decision on its result. A Go string type with named values is a data type with one constructor for
-- any other text.
pub mod Decided
use shclop.Prelude.{
  ℕ, String, Bool, true, false, ◌&&◌, ◌||◌, List, [], ◌∷◌, ◌++◌, leb, ltb, if◌then◌else◌,
}
use shclop.Prelude.Text.{trim_space, contains}

pub data RiskLevel : Type 0 where
  risk_none risk_low risk_medium risk_high risk_critical : RiskLevel
  other_risk : String → RiskLevel

pub data Decision : Type 0 where
  approved approved_with_warnings pending_approval rejected warn_only_allowed : Decision

pub record Finding : Type 0 where
  pub rule_id : String
  pub severity : RiskLevel
  pub message : String
  pub evidence : String
  pub recommendation : String

pub record ScanResult : Type 0 where
  pub risk_level : RiskLevel
  pub decision : Decision
  pub findings : List Finding

pub data PolicyMode : Type 0 where
  enforce warn disabled_dev_only : PolicyMode
  other_mode : String → PolicyMode

abbrev pub risk_rank : RiskLevel → ℕ
risk_rank risk_critical = 4
risk_rank risk_high = 3
risk_rank risk_medium = 2
risk_rank risk_low = 1
risk_rank risk = 0

abbrev worse : RiskLevel → RiskLevel → RiskLevel
worse risk severity = if ltb (risk_rank risk) (risk_rank severity) then severity else risk

-- The loop of `maxRisk`, with the worst level so far.
unfoldable pub worst_of : RiskLevel → List Finding → RiskLevel
worst_of risk [] = risk
worst_of risk (f ∷ fs) = worst_of (worse risk f.severity) fs

unfoldable pub max_risk : List Finding → RiskLevel
unfolding worst_of
max_risk fs = worst_of risk_none fs

abbrev enforced : RiskLevel → Decision
enforced risk_high = rejected
enforced risk_critical = rejected
enforced risk_medium = pending_approval
enforced risk_low = approved_with_warnings
enforced risk = approved

abbrev warned : RiskLevel → List Finding → Decision
warned risk_none [] = approved
warned risk fs = warn_only_allowed

unfoldable pub evaluate_policy : PolicyMode → RiskLevel → List Finding → Decision
evaluate_policy warn risk fs = warned risk fs
evaluate_policy disabled_dev_only risk fs = warned risk fs
evaluate_policy mode risk fs = enforced risk

abbrev pub decision_allows_use : Decision → Bool
decision_allows_use approved = true
decision_allows_use approved_with_warnings = true
decision_allows_use warn_only_allowed = true
decision_allows_use decision = false

unfoldable pub contains_any : String → List String → Bool
unfolding contains
contains_any text [] = false
contains_any text (needle ∷ needles) = contains needle text || contains_any text needles

-- What the scan needs of Go's strings beyond this library: `strings.ToLower`, and `len` and a prefix in
-- bytes.
pub record GoStrings : Type 0 where
  pub to_lower : String → String
  pub byte_length : String → ℕ
  pub byte_prefix : ℕ → String → String

abbrev evidence_of : GoStrings → String → String
evidence_of go text =
    let trimmed = trim_space text in
    if leb (go.byte_length trimmed) 160 then trimmed else go.byte_prefix 160 trimmed

pub record Rule : Type 0 where
  pub id : String
  pub severity : RiskLevel
  pub message : String
  pub recommendation : String
  pub needles : List String

-- The rules of `Scan`, in its order.
abbrev pub rules : List Rule
rules =
    record {
      id = "secrets.exfiltration";
      severity = risk_critical;
      message = "content asks to expose or exfiltrate secrets";
      recommendation = "remove secret access/exfiltration instructions";
      needles =
          "exfiltrate" ∷ "steal secrets" ∷ "dump secrets" ∷ "send secrets" ∷ "vault token" ∷ [];
    }
    ∷ record {
      id = "policy.bypass";
      severity = risk_high;
      message = "content asks to bypass policy or approval";
      recommendation = "remove policy bypass instructions";
      needles = "ignore policy" ∷ "bypass policy" ∷ "disable audit" ∷ "skip approval" ∷ [];
    }
    ∷ record {
      id = "network.unrestricted";
      severity = risk_high;
      message = "content requests unsafe network access";
      recommendation = "scope egress to approved destinations";
      needles =
          "unrestricted network" ∷ "any external url" ∷ "private cidr" ∷ "169.254.169.254" ∷ [];
    }
    ∷ record {
      id = "prompt.injection";
      severity = risk_medium;
      message = "content references prompt-injection sensitive behavior";
      recommendation = "clarify safe handling of instructions";
      needles = "prompt injection" ∷ "developer message" ∷ "system prompt" ∷ [];
    }
    ∷ []

abbrev finding_of : GoStrings → String → Rule → Finding
finding_of go text rule = record {
  rule_id = rule.id;
  severity = rule.severity;
  message = rule.message;
  evidence = evidence_of go text;
  recommendation = rule.recommendation;
}

-- One `if containsAny(…) { findings = append(findings, …) }` for each rule.
unfoldable pub findings_of : GoStrings → String → List Rule → List Finding
findings_of go text [] = []
findings_of go text (rule ∷ rest) =
    let later = findings_of go text rest in
    if contains_any (go.to_lower text) rule.needles then finding_of go text rule ∷ later else later

unfoldable pub scan : GoStrings → String → ScanResult
scan go text =
    let findings = findings_of go text rules in
    let risk = max_risk findings in
    record {
      risk_level = risk;
      decision = evaluate_policy enforce risk findings;
      findings = findings;
    }
