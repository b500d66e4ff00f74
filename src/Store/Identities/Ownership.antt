-- ===== src/Store/Identities/Ownership.antt =====
-- internal/store/store.go: whom a subject of an identity provider stands for.
use shclop.Prelude.{
  is_some, is_none, ◌++◌, Bool-cases, String, ◌≡◌, refl, Bool, true, false, ◌&&◌, none, some, List,
  [], ◌∷◌, arith, ◌==◌, eq_iff, if◌then◌else◌, Option-cases, inl, inr,
}
use shclop.Prelude.Lists.{
  remove_first, find_first, update_first, find_first-append_single, find_first-holds,
}
use shclop.Domain.{User, UserIdentity}
use mathlib.Core.Path.{subst₂}
use shclop.Store.Users.{user_with_id}
use shclop.Store.Commands.{
  Command, identity_touch, identity_create, identity_link, identity_unlink, exec, run,
}
use shclop.Store.Users.{create_user, update_user, set_password_hash, bootstrap_admin}
use shclop.Store.Agents.{create_agent, update_agent_state, update_agent_error, delete_agent}
use shclop.Store.Models.{create_llm_model, update_llm_model, upsert_llm_gateway_settings}
use shclop.Store.Connections.{upsert_integration_connection, delete_integration_connection}
use shclop.Store.Bindings.{upsert_agent_integration}
use shclop.Store.Manifests.{upsert_plugin_manifest, delete_plugin_manifest}
use shclop.Store.Settings.{set_app_setting}
use shclop.Store.Memory.{Result-cases, not_found, conflict, ok, err, Call, Memory}
use shclop.Store.Identities.{
  CreateUserAndIdentityArgs, identity_of, owner_of, new_identity, get_user_id_by_identity,
  create_user_and_identity, link_identity_to_user, touch, link_of, touch_identity_login,
  unlink_identity,
}

find_first-add_identity :
    (xs : List UserIdentity) (x : UserIdentity) (p s : String)
    → is_some (find_first (identity_of x.provider_name x.subject) xs) ≡ false
    → find_first (identity_of p s) (xs ++ x ∷ [])
      ≡ (if x.provider_name == p && x.subject == s then some x else find_first (identity_of p s) xs)
find_first-add_identity xs x p s free = elim (Bool-cases (x.provider_name == p && x.subject == s)) [
  | inl same ↦
      let e : x.provider_name ≡ p = ground (arith, eq_iff x.provider_name p) in
      let f : x.subject ≡ s = ground (arith, eq_iff x.subject s) in
      rw (find_first-append_single, same)
        (ground (arith, subst₂ (λ q t. is_some (find_first (identity_of q t) xs) ≡ false) e f free))
  | inr other ↦ rw (find_first-append_single, other) (ground arith)
]

-- When a user was created for a subject, a lookup whose context has not ended gives that user for the
-- subject, and for any other subject what it gave before.
pub get_user_id-create :
    (c c' : Call) (args : CreateUserAndIdentityArgs) (m : Memory) {u : User} (p s : String)
    → (create_user_and_identity c args m).0 ≡ ok u
    → c'.ctx_err ≡ none
    → (get_user_id_by_identity c' p s (create_user_and_identity c args m).1).0 ≡ (
        if args.provider_name == p && args.subject == s
        then ok (u.id, true)
        else (get_user_id_by_identity c' p s m).0)
unfolding create_user_and_identity get_user_id_by_identity
get_user_id-create c c' args m {u} p s done live = elim (Result-cases c.new_id) [
  | inr (e, no_id) ↦ absurd (ground arith)
  | inl (i, made) ↦ ground (
    arith,
    find_first-add_identity m.user_identities
        (new_identity args.provider_name args.subject i args.email args.display_name c.now) p s,
  )
]

-- While no context has ended: linking a subject to a user succeeds exactly when the user exists and the
-- subject stands for nobody; the subject then stands for that user, and every other subject, or any
-- subject if it failed, for whom it did.
pub get_user_id-link :
    (c c' : Call) (user_id provider_name subject email display_name : String) (m : Memory)
    (p s : String)
    → c.ctx_err ≡ none
    → c'.ctx_err ≡ none
    → let (r, m') = link_identity_to_user c user_id provider_name subject email display_name m in
      (r ≡ (
        if is_some (find_first (user_with_id user_id) m.users)
        then (if is_some (find_first (identity_of provider_name subject) m.user_identities)
            then err conflict
            else ok tt)
        else err not_found))
      × ((get_user_id_by_identity c' p s m').0 ≡ (
          if is_some (find_first (user_with_id user_id) m.users)
            && is_none (find_first (identity_of provider_name subject) m.user_identities)
            && (provider_name == p && subject == s)
          then ok (user_id, true)
          else (get_user_id_by_identity c' p s m).0))
unfolding link_identity_to_user get_user_id_by_identity
get_user_id-link c c' user_id provider_name subject email display_name m p s live live' =
    let add =
      find_first-add_identity m.user_identities
        (new_identity provider_name subject user_id email display_name c.now) p s in
    (ground arith, ground (arith, add))

-- The command takes this subject from this user.
abbrev pub unlinks : Command → String → String → String → Bool
unlinks (identity_unlink u q t) id p s = u == id && q == p && t == s
unlinks cmd id p s = false

find_first-remove_first_kept :
    (q : UserIdentity → Bool) (r : UserIdentity → Bool) (xs : List UserIdentity) {x : UserIdentity}
    → find_first q xs ≡ some x
    → r x ≡ false
    → find_first q (remove_first r xs) ≡ some x
unfolding find_first remove_first
find_first-remove_first_kept q r [] h k = ground arith
find_first-remove_first_kept q r (y ∷ xs) {x} h k =
    ground (arith, find_first-remove_first_kept q r xs {x = x})

pub owner_of-update_first :
    (q r : UserIdentity → Bool) (f : UserIdentity → UserIdentity) (xs : List UserIdentity)
    → ((x : UserIdentity) → q (f x) ≡ q x)
    → ((x : UserIdentity) → (f x).user_id ≡ x.user_id)
    → owner_of (find_first q (update_first r f xs)) ≡ owner_of (find_first q xs)
unfolding find_first update_first
owner_of-update_first q r f [] h k = refl
owner_of-update_first q r f (x ∷ xs) h k =
    ground (arith, h x, k x, owner_of-update_first q r f xs h k)

owner_of-append :
    (q : UserIdentity → Bool) (xs : List UserIdentity) (y : UserIdentity) {id : String}
    → owner_of (find_first q xs) ≡ (id, true)
    → owner_of (find_first q (xs ++ y ∷ [])) ≡ (id, true)
owner_of-append q xs y h = ground (arith, find_first-append_single q xs y)

owner_of-unlink :
    (u q t id p s : String) (xs : List UserIdentity)
    → (u == id && q == p && t == s) ≡ false
    → owner_of (find_first (identity_of p s) xs) ≡ (id, true)
    → owner_of (find_first (identity_of p s) (remove_first (link_of u q t) xs)) ≡ (id, true)
owner_of-unlink u q t id p s xs ne h = elim (Option-cases (find_first (identity_of p s) xs)) [
  | inl missing ↦ absurd (ground arith)
  | inr (x, there) ↦ ground (
    arith,
    there,
    find_first-holds (identity_of p s) xs there,
    find_first-remove_first_kept (identity_of p s) (link_of u q t) xs {x = x} there,
    eq_iff x.user_id u,
    eq_iff x.provider_name q,
    eq_iff x.subject t,
    eq_iff x.provider_name p,
    eq_iff x.subject s,
    eq_iff u id,
    eq_iff q p,
    eq_iff t s,
  )
]

-- A subject that stands for a user goes on standing for that user, whatever writing method is called,
-- unless the call unlinks this subject from this user.
pub exec-owner_stable :
    (c : Call) (cmd : Command) (m : Memory) (id p s : String)
    → unlinks cmd id p s ≡ false
    → owner_of (find_first (identity_of p s) m.user_identities) ≡ (id, true)
    → owner_of (find_first (identity_of p s) (exec c cmd m).1.user_identities) ≡ (id, true)
unfolding exec create_user update_user set_password_hash bootstrap_admin create_agent
    update_agent_state update_agent_error delete_agent create_llm_model update_llm_model
    upsert_llm_gateway_settings upsert_integration_connection delete_integration_connection
    upsert_agent_integration upsert_plugin_manifest delete_plugin_manifest touch_identity_login
    create_user_and_identity link_identity_to_user unlink_identity set_app_setting
exec-owner_stable c (identity_touch q t) m id p s keep h = ground (
  arith,
  owner_of-update_first (identity_of p s) (identity_of q t) (touch c.now) m.user_identities
      (λ x. refl) (λ x. refl),
)
exec-owner_stable c (identity_create args) m id p s keep h = elim (Result-cases c.new_id) [
  | inr (e, no_id) ↦ ground arith
  | inl (i, made) ↦ ground (
    arith,
    made,
    owner_of-append (identity_of p s) m.user_identities
        (new_identity args.provider_name args.subject i args.email args.display_name c.now) h,
  )
]
exec-owner_stable c (identity_link u q t e d) m id p s keep h =
    ground
      (arith, owner_of-append (identity_of p s) m.user_identities (new_identity q t u e d c.now) h)
exec-owner_stable c (identity_unlink u q t) m id p s keep h =
    ground (arith, owner_of-unlink u q t id p s m.user_identities keep h)
exec-owner_stable c _ m id p s keep h = ground arith

abbrev pub NoneUnlinks : List (Call × Command) → String → String → String → Type 0
NoneUnlinks [] id p s = Unit
NoneUnlinks ((c, cmd) ∷ rest) id p s = (unlinks cmd id p s ≡ false) × NoneUnlinks rest id p s

-- Through any sequence of calls in which this subject is not unlinked from this user, the subject
-- stands for the user: no other method can hand it to someone else.
pub run-owner_stable :
    (calls : List (Call × Command)) (m : Memory) (id p s : String)
    → NoneUnlinks calls id p s
    → owner_of (find_first (identity_of p s) m.user_identities) ≡ (id, true)
    → owner_of (find_first (identity_of p s) (run calls m).user_identities) ≡ (id, true)
unfolding run
run-owner_stable [] m id p s keep h = h
run-owner_stable ((c, cmd) ∷ rest) m id p s keep h =
    run-owner_stable rest (exec c cmd m).1 id p s keep.1 (exec-owner_stable c cmd m id p s keep.0 h)
