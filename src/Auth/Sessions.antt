-- ===== src/Auth/Sessions.antt =====
-- internal/auth/auth.go: when a login succeeds, and what a token resolves to.
use shclop.Prelude.{
  String, ◌≡◌, true, false, none, some, arith, ◌==◌, eq_iff, if◌then◌else◌, inl, inr,
}
use shclop.Prelude.Dict.{lookup-insert, lookup-remove}
use shclop.Domain.{User}
use shclop.Store.Memory.{Result-cases, Err, Result, ok, err, Call, Memory}
use shclop.Store.Users.{get_user_by_username, get_password_hash}
use shclop.Auth.{is_some, CompareHash, Sessions, login, resolve, revoke}

-- A login that succeeds has found the account under the name, not disabled, with a stored hash that
-- the password matches; the token that it returns resolves to the account, and every other token
-- resolves as before.
pub login_sound :
    (compare_hash : CompareHash) (c : Call) (username password : String) (token : Result String)
    (m : Memory) (tokens : Sessions) {u : User} {t : String}
    → (login compare_hash c username password token m tokens).0 ≡ ok (u, t)
    → ((get_user_by_username c username m).0 ≡ ok u)
      × (u.disabled ≡ false)
      × ((hash : String) × ((get_password_hash username m).0 ≡ ok hash)
          × (compare_hash hash password ≡ true))
      × ((k : String)
          → resolve k (login compare_hash c username password token m tokens).1
            ≡ (if t == k then some u else resolve k tokens))
unfolding login resolve
login_sound compare_hash c username password token m tokens {u} {t} h =
    elim (Result-cases (get_user_by_username c username m).0) [
      | inr (e, missing) ↦ absurd (ground arith)
      | inl (v, there) ↦ elim (Result-cases (get_password_hash username m).0) [
        | inr (e, no_hash) ↦ absurd (ground arith)
        | inl (hash, stored) ↦ (
          ground arith,
          ground arith,
          (hash, stored, ground arith),
          λ k.
              ground
                (arith, λ (j : String). lookup-insert j k v tokens, lookup-insert t k v tokens),
        )
      ]
    ]

-- A login that fails leaves every session as it was.
pub login_error_unchanged :
    (compare_hash : CompareHash) (c : Call) (username password : String) (token : Result String)
    (m : Memory) (tokens : Sessions) {e : Err}
    → (login compare_hash c username password token m tokens).0 ≡ err e
    → (login compare_hash c username password token m tokens).1 ≡ tokens
unfolding login
login_error_unchanged compare_hash c username password token m tokens h = ground arith

-- Revoking says whether the token was a session; after it the token resolves to nobody, and every
-- other token as before.
pub resolve-revoke :
    (token k : String) (tokens : Sessions)
    → ((revoke token tokens).0 ≡ is_some (resolve token tokens))
      × (resolve k (revoke token tokens).1 ≡ (if token == k then none else resolve k tokens))
unfolding resolve revoke
resolve-revoke token k tokens =
    (ground arith, ground (arith, lookup-remove token k tokens, eq_iff token k))
