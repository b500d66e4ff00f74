-- ===== src/Auth/Cookie.antt =====
-- internal/auth/cookiecodec.go: the cookie that carries a login through the redirect to the provider. Gob,
-- base64 and AES-GCM are a `CookieLibrary`; a time is a number and the zero time is 0.
use shclop.Prelude.{refl, inr, inl, ℕ, String, not, ◌&&◌, ◌≡◌, ltb, eqb, arith, if◌then◌else◌}
use shclop.Store.Memory.{Result-cases, Result, ok, err, ◌>>=◌}

pub record OidcStateCookie : Type 0 where
  pub state : String
  pub nonce : String
  pub code_verifier : String
  pub provider : String
  pub return_to : String
  pub expires_at : ℕ

pub record CookieLibrary : Type 0 where
  pub gob_encode : OidcStateCookie → Result String
  pub gob_decode : String → Result OidcStateCookie
  pub seal : String → Result String
  pub open_sealed : String → Result String
  pub base64_encode : String → String
  pub base64_decode : String → Result String

-- What `Decode` makes of a value: a payload, `ErrExpired` or `ErrInvalidCookie`.
pub data Decoded : Type 0 where
  accepted expired : OidcStateCookie → Decoded
  invalid : Decoded

unfoldable pub encode : CookieLibrary → OidcStateCookie → Result String
encode lib payload = do
  plaintext ← lib.gob_encode payload
  ciphertext ← lib.seal plaintext
  ok (lib.base64_encode ciphertext)

abbrev checked : ℕ → Result OidcStateCookie → Decoded
checked now (err e) = invalid
checked now (ok payload) =
    if not (eqb payload.expires_at 0) && ltb payload.expires_at now
    then expired payload
    else accepted payload

unfoldable pub decode : CookieLibrary → ℕ → String → Decoded
decode lib now encoded =
    checked now (lib.base64_decode encoded >>= λ raw. lib.open_sealed raw >>= lib.gob_decode)

-- Where base64, gob and the cipher read back what they wrote: a cookie that was encoded is decoded to the
-- same payload, as expired when its time to expire is set and past, and as accepted otherwise.
pub decode-encode :
    (lib : CookieLibrary) (now : ℕ) (payload : OidcStateCookie) {text : String}
    → ((p : OidcStateCookie) (t : String) → lib.gob_encode p ≡ ok t → lib.gob_decode t ≡ ok p)
    → ((p t : String) → lib.seal p ≡ ok t → lib.open_sealed t ≡ ok p)
    → ((t : String) → lib.base64_decode (lib.base64_encode t) ≡ ok t)
    → encode lib payload ≡ ok text
    → decode lib now text ≡ (
        if not (eqb payload.expires_at 0) && ltb payload.expires_at now
        then expired payload
        else accepted payload)
unfolding encode decode
decode-encode lib now payload {text} gob cipher base64 h =
    elim (Result-cases (lib.gob_encode payload)) [
      | inr (e, failed) ↦ absurd (ground (arith, failed, h))
      | inl (plain, encoded) ↦ elim (Result-cases (lib.seal plain)) [
        | inr (e, failed) ↦ absurd (ground (arith, encoded, failed, h))
        | inl (sealed, closed) ↦
            let e : text ≡ lib.base64_encode sealed = ground (arith, encoded, closed, h) in
            rw (e, base64 sealed, cipher plain sealed closed, gob payload plain encoded) refl
      ]
    ]
