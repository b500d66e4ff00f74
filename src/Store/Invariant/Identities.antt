-- ===== src/Store/Invariant/Identities.antt =====
-- internal/store/store.go: the methods on identities and the invariant.
use shclop.Prelude.{
  String, ◌≡◌, refl, false, List, [], ◌∷◌, ◌++◌, map, arith, is_some, Bool-cases, Option-cases, inl,
  inr, eq_iff,
}
use shclop.Prelude.Lists.{find_first, find_first-append_single}
use shclop.Prelude.Keys.{
  IsDistinct, IsDistinct-append, IsDistinct-update_first, IsDistinct-remove_first,
  IsFresh-of_find_first,
}
use shclop.Domain.{User, UserIdentity}
use shclop.Store.Memory.{Result-cases, Call, Memory}
use shclop.Store.Users.{user_with_id, user_named, new_user}
use shclop.Store.Identities.{
  CreateUserAndIdentityArgs, identity_of, new_identity, touch, touch_identity_login,
  create_user_and_identity, link_identity_to_user, unlink_identity, link_of,
}
use shclop.Store.Invariant.Links.{
  IsWellFormed, identity_key, IsUser, AllLinked-append, AllLinked-remove_first,
  AllLinked-update_first,
}
use shclop.Store.Invariant.Users.{find_first-none, add_user-IsWellFormed}

IsDistinct-new_identity :
    (xs : List UserIdentity) (x : UserIdentity)
    → is_some (find_first (identity_of x.provider_name x.subject) xs) ≡ false
    → IsDistinct (map identity_key xs)
    → IsDistinct (map identity_key (xs ++ x ∷ []))
IsDistinct-new_identity xs x h d = IsDistinct-append identity_key xs x d (
    IsFresh-of_find_first identity_key (identity_of x.provider_name x.subject) (identity_key x) xs
      (λ y e. ground (arith, eq_iff y.provider_name x.provider_name, eq_iff y.subject x.subject))
      (find_first-none _ xs h))

add_identity-IsWellFormed :
    (m : Memory) (x : UserIdentity)
    → IsUser m.users x.user_id
    → is_some (find_first (identity_of x.provider_name x.subject) m.user_identities) ≡ false
    → IsWellFormed m
    → IsWellFormed (record m { user_identities = m.user_identities ++ x ∷ [] })
add_identity-IsWellFormed m x known free w = record {
  usernames = w.usernames;
  identities = IsDistinct-new_identity m.user_identities x free w.identities;
  linked = AllLinked-append m.users m.user_identities x w.linked known;
  connections = w.connections;
  bindings = w.bindings;
  manifests = w.manifests;
  keyed = w.keyed;
}

pub touch_identity_login-IsWellFormed :
    (c : Call) (provider_name subject : String) (m : Memory)
    → IsWellFormed m
    → IsWellFormed (touch_identity_login c provider_name subject m).1
unfolding touch_identity_login
touch_identity_login-IsWellFormed c provider_name subject m w = elim (Option-cases c.ctx_err) [
  | inr (e, ended) ↦ rw ended w
  | inl live ↦
      rw live
        (elim (Bool-cases
          (is_some (find_first (identity_of provider_name subject) m.user_identities))) [
            | inl there ↦ rw there (record {
              usernames = w.usernames;
              identities =
                  IsDistinct-update_first identity_key (identity_of provider_name subject)
                    (touch c.now) m.user_identities (λ x. refl) w.identities;
              linked =
                  AllLinked-update_first m.users (identity_of provider_name subject) (touch c.now)
                    m.user_identities (λ x. refl) w.linked;
              connections = w.connections;
              bindings = w.bindings;
              manifests = w.manifests;
              keyed = w.keyed;
            })
            | inr missing ↦ rw missing w
          ])
]

-- A user just added is found by its id.
IsUser-new_user : (us : List User) (u : User) → IsUser (us ++ u ∷ []) u.id
IsUser-new_user us u = rw find_first-append_single (ground (arith, eq_iff u.id u.id))

pub create_user_and_identity-IsWellFormed :
    (c : Call) (args : CreateUserAndIdentityArgs) (m : Memory)
    → IsWellFormed m
    → IsWellFormed (create_user_and_identity c args m).1
unfolding create_user_and_identity
create_user_and_identity-IsWellFormed c args m w = elim (Option-cases c.ctx_err) [
  | inr (e, ended) ↦ rw ended w
  | inl live ↦
      rw live (elim (Bool-cases (is_some (find_first (user_named args.username) m.users))) [
        | inl taken ↦ rw taken w
        | inr free ↦
            rw free
              (elim (Bool-cases (
                is_some
                  (find_first (identity_of args.provider_name args.subject) m.user_identities))) [
                    | inl linked ↦ rw linked w
                    | inr unlinked ↦ rw unlinked (elim (Result-cases c.new_id) [
                      | inr (e, no_id) ↦ rw no_id w
                      | inl (id, made) ↦
                          let u = new_user id args.username args.role c.now in
                          rw made (
                            add_identity-IsWellFormed (record m { users = m.users ++ u ∷ [] })
                              (new_identity args.provider_name args.subject id args.email
                                args.display_name c.now)
                              (IsUser-new_user m.users u) unlinked
                              (add_user-IsWellFormed m u free w))
                    ])
                  ])
      ])
]

pub link_identity_to_user-IsWellFormed :
    (c : Call) (user_id provider_name subject email display_name : String) (m : Memory)
    → IsWellFormed m
    → IsWellFormed (link_identity_to_user c user_id provider_name subject email display_name m).1
unfolding link_identity_to_user
link_identity_to_user-IsWellFormed c user_id provider_name subject email display_name m w =
    elim (Option-cases c.ctx_err) [
      | inr (e, ended) ↦ rw ended w
      | inl live ↦
          rw live (elim (Bool-cases (is_some (find_first (user_with_id user_id) m.users))) [
            | inr stranger ↦ rw stranger w
            | inl known ↦
                rw known
                  (elim (Bool-cases
                    (is_some (find_first (identity_of provider_name subject) m.user_identities))) [
                      | inl linked ↦ rw linked w
                      | inr free ↦ rw free (
                          add_identity-IsWellFormed m
                            (new_identity provider_name subject user_id email display_name c.now)
                            known free w)
                    ])
          ])
    ]

pub unlink_identity-IsWellFormed :
    (c : Call) (user_id provider_name subject : String) (m : Memory)
    → IsWellFormed m
    → IsWellFormed (unlink_identity c user_id provider_name subject m).1
unfolding unlink_identity
unlink_identity-IsWellFormed c user_id provider_name subject m w = elim (Option-cases c.ctx_err) [
  | inr (e, ended) ↦ rw ended w
  | inl live ↦
      rw live
        (elim (Bool-cases
          (is_some (find_first (link_of user_id provider_name subject) m.user_identities))) [
            | inr missing ↦ rw missing w
            | inl there ↦ rw there (record {
              usernames = w.usernames;
              identities =
                  IsDistinct-remove_first identity_key (link_of user_id provider_name subject)
                    m.user_identities w.identities;
              linked =
                  AllLinked-remove_first m.users (link_of user_id provider_name subject)
                    m.user_identities w.linked;
              connections = w.connections;
              bindings = w.bindings;
              manifests = w.manifests;
              keyed = w.keyed;
            })
          ])
]
