-- ===== src/Api/Steps.antt =====
-- internal/api/server.go: the steps of a handler that answers early.
use shclop.Prelude.{◌≡◌, sym, ap, ◌∙◌, arith, inl, inr}
use shclop.Api.Server.{Flow-cases, Handler, Server, continue, go, ◌>>=◌}

-- A step that leaves the server as it found it, in front of the rest of a handler that went on.
pub quiet_bind {ℓ κ μ} :
    {A : Type ℓ} {B : Type κ} {P : A → Type μ} (m : Handler A) (f : A → Handler B) (s : Server)
    {b : B}
    → ((a : A) → (m s).0 ≡ go a → (m s ≡ (go a, s)) × P a)
    → ((m >>= f) s).0 ≡ go b
    → (a : A) × P a × ((m >>= f) s ≡ f a s) × ((f a s).0 ≡ go b)
quiet_bind m f s quiet h = elim (Flow-cases (m s).0) [
  | inr (r, e) ↦ absurd (ground arith)
  | inl (a, e) ↦
      let (w, p) = quiet a e in
      let step = ap (λ x. continue x.0 f x.1) w in (a, p, step, sym (ap (λ x. x.0) step) ∙ h)
]
