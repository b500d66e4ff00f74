-- ===== src/Identity/Provider/Carried.antt =====
-- internal/identity/oidc.go: what an identity takes from its ID token.
use shclop.Prelude.{ap, ◌∙◌, Option, ◌≡◌, inl, inr, String, none, some, arith, eq_iff}
use shclop.Prelude.Dict.{Dict, lookup}
use shclop.Store.Memory.{Result-cases, ok}
use shclop.Identity.Provider.{
  IdToken, OidcProvider, Identity, Claim, claim_text, string_claim, text_of_claim, required,
  claim_null, claim_other, claim_list, identity_from_id_token,
}

required_sound :
    (o : Option Claim) {t : String}
    → required (text_of_claim o) ≡ ok t
    → (o ≡ some (claim_text t)) × ¬ (t ≡ "")
required_sound none h = absurd (ground (arith, h))
required_sound (some claim_null) h = absurd (ground (arith, h))
required_sound (some claim_other) h = absurd (ground (arith, h))
required_sound (some (claim_list items)) h = absurd (ground (arith, h))
required_sound (some (claim_text v)) h =
    (ground (arith, h), (λ e. ground (arith, h, e, eq_iff v "")))

-- An identity has the subject of its token and the text of the claim that the provider names for the email
-- address, and neither is empty.
pub identity_from_id_token_sound :
    (p : OidcProvider) (token : IdToken) {i : Identity}
    → identity_from_id_token p token ≡ ok i
    → (i.subject ≡ token.subject)
      × ¬ (i.subject ≡ "")
      × ¬ (i.email ≡ "")
      × ((raw : Dict Claim) × (token.claims ≡ ok raw)
          × (lookup p.config.email_claim raw ≡ some (claim_text i.email)))
unfolding identity_from_id_token string_claim
identity_from_id_token_sound p token {i} h = elim (Result-cases token.claims) [
  | inr (e, failed) ↦ absurd (ground (arith, failed, h))
  | inl (raw, decoded) ↦
      elim (Result-cases (required (text_of_claim (lookup p.config.email_claim raw)))) [
        | inr (e, refused) ↦ absurd (ground (arith, decoded, refused, h))
        | inl (email, taken) ↦
            let same : email ≡ i.email = ground (arith, decoded, taken, h) in
            let (there, nonempty) =
              required_sound (lookup p.config.email_claim raw) (taken ∙ ap ok same) in
            (
              ground (arith, decoded, taken, h),
              (λ e. ground (arith, decoded, taken, h, e, eq_iff token.subject "")),
              nonempty,
              (raw, decoded, there),
            )
      ]
]
