-- ===== src/Api/Sso/Accounts/Linked.antt =====
-- internal/api/oidc.go: which account a login through a provider ends in.
use shclop.Prelude.{
  Option, ℕ, String, ◌≡◌, refl, sym, ap, ◌∙◌, ◌⊎◌, inl, inr, Option-cases, true, false, none, some,
  arith, eq_iff,
}
use shclop.Prelude.Lists.{find_first, find_first-holds}
use shclop.Domain.{UserIdentity, User}
use shclop.Store.Memory.{Err, Result, not_found, ok, err, Result-cases, Call, Memory}
use shclop.Store.Users.{user_named, user_with_id, get_user, get_user_by_username}
use shclop.Store.Identities.{
  identity_of, owner_of, get_user_id_by_identity, touch, touch_identity_login,
  create_user_and_identity,
}
use shclop.Store.Identities.Ownership.{owner_of-update_first, get_user_id-create}
use shclop.Api.Sso.Accounts.{
  by_link, account_args, External, login_linked, create_linked, link_or_create_user,
}

-- The subject was this account's before.
abbrev pub WasLinked : (ℕ → Call) → External → User → Memory → Type 0
WasLinked at x u m =
    (get_user_id_by_identity (at 0) x.provider_name x.subject m).0 ≡ ok (u.id, true)

-- The subject was nobody's, and the account is new: a user's account under the email address, which was no
-- account's name.
abbrev pub IsNew : (ℕ → Call) → External → User → Memory → Type 0
IsNew at x u m =
    ((id : String) × ((get_user_id_by_identity (at 0) x.provider_name x.subject m).0
        ≡ ok (id, false)))
    × (u.username ≡ x.email)
    × (u.role ≡ "user")
    × ((c : Call) → c.ctx_err ≡ none → (get_user_by_username c x.email m).0 ≡ err not_found)

login_linked_sound :
    (at : ℕ → Call) (x : External) (id : String) (m : Memory) {u : User}
    → (login_linked at x id m).0 ≡ ok u
    → (u.disabled ≡ false)
      × (u.id ≡ id)
      × (owner_of (
            find_first
              (identity_of x.provider_name x.subject)
              (login_linked at x id m).1.user_identities)
          ≡ owner_of (find_first (identity_of x.provider_name x.subject) m.user_identities))
unfolding login_linked get_user touch_identity_login
login_linked_sound at x id m {u} h = elim (Option-cases (find_first (user_with_id id) m.users)) [
  | inl absent ↦ absurd (ground (arith, absent, h))
  | inr (v, there) ↦ (
    ground (arith, there, h),
    ground (arith, there, h, find_first-holds (user_with_id id) m.users there, eq_iff v.id id),
    ground (
      arith,
      owner_of-update_first (identity_of x.provider_name x.subject)
          (identity_of x.provider_name x.subject) (touch (at 1).now) m.user_identities (λ y. refl)
          (λ y. refl),
    ),
  )
]

-- Where the name is free, nothing stands before the creation.
create_linked_free :
    (at : ℕ → Call) (x : External) (m : Memory)
    → find_first (user_named x.email) m.users ≡ none
    → create_linked at x m ≡ create_user_and_identity (at 4) (account_args x) m
unfolding create_linked get_user_by_username
create_linked_free at x m free = elim (Option-cases (at 3).ctx_err) [
  | inl live ↦ rw (live, free) refl
  | inr (e, ended) ↦ rw ended refl
]

created_linked :
    (at : ℕ → Call) (x : External) (m : Memory) (c : Call) {u : User}
    → find_first (user_named x.email) m.users ≡ none
    → (create_linked at x m).0 ≡ ok u
    → c.ctx_err ≡ none
    → (get_user_id_by_identity c x.provider_name x.subject (create_linked at x m).1).0
      ≡ ok (u.id, true)
created_linked at x m c {u} free h live =
    let same = create_linked_free at x m free in
    ap (λ (w : Result User × Memory). (get_user_id_by_identity c x.provider_name x.subject w.1).0)
      same
    ∙ get_user_id-create (at 4) c (account_args x) m x.provider_name x.subject
        (sym (ap (λ w. w.0) same) ∙ h) live
    ∙ ground (arith, eq_iff x.provider_name x.provider_name, eq_iff x.subject x.subject)

create_linked_sound :
    (at : ℕ → Call) (x : External) (m : Memory) {u : User}
    → (create_linked at x m).0 ≡ ok u
    → (u.disabled ≡ false)
      × (u.username ≡ x.email)
      × (u.role ≡ "user")
      × ((c : Call) → c.ctx_err ≡ none → (get_user_by_username c x.email m).0 ≡ err not_found)
      × ((c : Call)
          → c.ctx_err ≡ none
          → (get_user_id_by_identity c x.provider_name x.subject (create_linked at x m).1).0
            ≡ ok (u.id, true))
unfolding create_linked get_user_by_username create_user_and_identity
create_linked_sound at x m {u} h = elim (Option-cases (find_first (user_named x.email) m.users)) [
  | inr (v, taken) ↦ absurd (ground (arith, taken, h))
  | inl free ↦ elim (Result-cases (at 4).new_id) [
    | inr (e, no_id) ↦ absurd (ground (arith, free, no_id, h))
    | inl (id, made) ↦ (
      ground (arith, free, made, h),
      ground (arith, free, made, h),
      ground (arith, free, made, h),
      (λ c live. ground (arith, free, live)),
      (λ c live. created_linked at x m c free h live),
    )
  ]
]

-- What the search for the subject's account answers.
looked_up :
    (c : Call) (x : External) (m : Memory)
    → c.ctx_err ≡ none
    → get_user_id_by_identity c x.provider_name x.subject m
      ≡ (ok (owner_of (find_first (identity_of x.provider_name x.subject) m.user_identities)), m)
unfolding get_user_id_by_identity
looked_up c x m live = rw live refl

-- A login while the store answers goes by what stands for the subject.
by_owner :
    (at : ℕ → Call) (x : External) (m : Memory) (o : Option UserIdentity)
    → (at 0).ctx_err ≡ none
    → find_first (identity_of x.provider_name x.subject) m.user_identities ≡ o
    → link_or_create_user at x m ≡ by_link (ok (owner_of o)) at x m
unfolding link_or_create_user login_linked create_linked
by_owner at x m o live here =
    ap (λ w. by_link w.0 at x w.1) (looked_up (at 0) x m live)
    ∙ ap (λ o'. by_link (ok (owner_of o')) at x m) here

answered :
    (at : ℕ → Call) (x : External) (m : Memory) {o : Option UserIdentity}
    → (at 0).ctx_err ≡ none
    → find_first (identity_of x.provider_name x.subject) m.user_identities ≡ o
    → (get_user_id_by_identity (at 0) x.provider_name x.subject m).0 ≡ ok (owner_of o)
answered at x m live here =
    ap (λ w. w.0) (looked_up (at 0) x m live) ∙ ap (λ o'. ok (owner_of o')) here

ended_fails :
    (at : ℕ → Call) (x : External) (m : Memory) {e : Err} {u : User}
    → (at 0).ctx_err ≡ some e
    → ¬ ((link_or_create_user at x m).0 ≡ ok u)
unfolding link_or_create_user get_user_id_by_identity
ended_fails at x m ended h = ground (arith, ended, h)

-- When a login through a provider ends in an account: the account is not disabled, from then on the
-- subject stands for it, and either the subject stood for it before, or it stood for nobody and the
-- account is new, a user's under an email address that no account had as its name. In particular no
-- account is taken over by its email address.
pub link_or_create_user_sound :
    (at : ℕ → Call) (x : External) (m : Memory) {u : User}
    → (link_or_create_user at x m).0 ≡ ok u
    → (u.disabled ≡ false)
      × (WasLinked at x u m ⊎ IsNew at x u m)
      × ((c : Call)
          → c.ctx_err ≡ none
          → (get_user_id_by_identity c x.provider_name x.subject (link_or_create_user at x m).1).0
            ≡ ok (u.id, true))
link_or_create_user_sound at x m {u} h = elim (Option-cases (at 0).ctx_err) [
  | inr (e, ended) ↦ absurd (ended_fails at x m ended h)
  | inl live0 ↦
      elim (Option-cases (find_first (identity_of x.provider_name x.subject) m.user_identities)) [
        | inl unknown ↦
            let same : link_or_create_user at x m ≡ create_linked at x m =
              by_owner at x m none live0 unknown in
            let (on, named, user_role, was_free, linked) =
              create_linked_sound at x m (sym (ap (λ w. w.0) same) ∙ h) in
            (
              on,
              inr (("", answered at x m live0 unknown), named, user_role, was_free),
              (λ c live.
                  ap (λ w. (get_user_id_by_identity c x.provider_name x.subject w.1).0) same
                  ∙ linked c live),
            )
        | inr (y, known) ↦
            let same : link_or_create_user at x m ≡ login_linked at x y.user_id m =
              by_owner at x m (some y) live0 known in
            let (on, same_id, kept) =
              login_linked_sound at x y.user_id m (sym (ap (λ w. w.0) same) ∙ h) in
            (
              on,
              inl (answered at x m live0 known ∙ ap (λ i. ok (i, true)) (sym same_id)),
              (λ c live.
                  ap (λ w. (get_user_id_by_identity c x.provider_name x.subject w.1).0) same
                  ∙ ap (λ w. w.0) (looked_up c x (login_linked at x y.user_id m).1 live)
                  ∙ ap ok (kept ∙ ap owner_of known ∙ ap (λ i. (i, true)) (sym same_id))),
            )
      ]
]
