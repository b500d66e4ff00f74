-- ===== src/Security/Decided.antt =====
-- internal/security: which texts a scan lets through.
use shclop.Prelude.{
  ℕ, ◌≤◌, String, ◌≡◌, ◌↔◌, Bool-cases, true, false, List, [], ◌∷◌, arith, inl, inr, ltb,
}
use shclop.Security.{
  RiskLevel, risk_rank, worse, worst_of, max_risk, Finding, GoStrings, Rule, rules, contains_any,
  scan, findings_of, evaluate_policy, decision_allows_use,
}

-- No finding is worse than a rank.
abbrev pub AllBelow : ℕ → List Finding → Type 0
AllBelow n [] = Unit
AllBelow n (f ∷ fs) = (risk_rank f.severity ≤ n) × AllBelow n fs

rank-worse :
    (n : ℕ) (r s : RiskLevel)
    → (risk_rank (worse r s) ≤ n) ↔ ((risk_rank r ≤ n) × (risk_rank s ≤ n))
rank-worse n r s = elim (Bool-cases (ltb (risk_rank r) (risk_rank s))) [
  | inl up ↦ rw up ((λ h. (ground (arith, h, up), h)), (λ h. h.1))
  | inr keep ↦ rw keep ((λ h. (h, ground (arith, h, keep))), (λ h. h.0))
]

rank-worst_of :
    (n : ℕ) (r : RiskLevel) (fs : List Finding)
    → (risk_rank (worst_of r fs) ≤ n) ↔ ((risk_rank r ≤ n) × AllBelow n fs)
unfolding worst_of
rank-worst_of n r [] = ((λ h. (h, tt)), (λ h. h.0))
rank-worst_of n r (f ∷ fs) =
    let (to, from) = rank-worst_of n (worse r f.severity) fs in
    let (split, join) = rank-worse n r f.severity in
    (
      (λ h. let (w, below) = to h in let (a, b) = split w in (a, (b, below))),
      (λ h. from (join (h.0, h.1.0), h.1.1)),
    )

-- The level of a scan is the worst of its findings: it is within a rank exactly when every finding is.
pub max_risk_lub : (n : ℕ) (fs : List Finding) → (risk_rank (max_risk fs) ≤ n) ↔ AllBelow n fs
unfolding max_risk
max_risk_lub n fs =
    let (to, from) = rank-worst_of n RiskLevel.risk_none fs in
    ((λ h. (to h).1), (λ h. from (omega arith, h)))

-- None of the rules finds one of its phrases in the text.
abbrev pub IsClean : GoStrings → String → List Rule → Type 0
IsClean go text [] = Unit
IsClean go text (rule ∷ rest) =
    (contains_any (go.to_lower text) rule.needles ≡ false) × IsClean go text rest

-- A scan allows the use of a text exactly when no rule finds one of its phrases in the text in lower
-- case.
pub scan_allows_iff :
    (go : GoStrings) (text : String)
    → (decision_allows_use (scan go text).decision ≡ true) ↔ IsClean go text rules
unfolding scan findings_of max_risk worst_of evaluate_policy
scan_allows_iff go text = ((λ h. ground (arith, h)), (λ h. ground (arith, h)))
