-- ===== src/Store/Invariant/Users.antt =====
-- internal/store/store.go: the methods on users and identities and the invariant.
use shclop.Prelude.{
  String, ◌≡◌, refl, Bool, false, Option, none, List, [], ◌∷◌, ◌++◌, map, arith, is_some,
  Bool-cases, Option-cases, inl, inr, eq_iff,
}
use shclop.Prelude.Lists.{find_first, update_first}
use shclop.Prelude.Keys.{
  IsDistinct, IsDistinct-append, IsDistinct-update_first, IsFresh-of_find_first,
}
use shclop.Prelude.Dict.{Dict, insert}
use shclop.Domain.{User}
use shclop.Store.Memory.{Result-cases, Call, Memory}
use shclop.Store.Users.{
  user_with_id, user_named, new_user, create_user, update_user, set_password_hash, bootstrap_admin,
  edit_user, make_admin, keep_hash,
}
use shclop.Store.Invariant.Links.{
  IsWellFormed, username_of, IsUser-append, IsUser-update_first, AllLinked-mono, IsWellFormed-frame,
}

pub find_first-none {ℓ} :
    {A : Type ℓ} (p : A → Bool) (xs : List A)
    → is_some (find_first p xs) ≡ false
    → find_first p xs ≡ none
find_first-none p xs h = ground arith

-- The name is new, so adding the user keeps the names different.
IsDistinct-new_user :
    (us : List User) (u : User)
    → is_some (find_first (user_named u.username) us) ≡ false
    → IsDistinct (map username_of us)
    → IsDistinct (map username_of (us ++ u ∷ []))
IsDistinct-new_user us u h d = IsDistinct-append username_of us u d (
    IsFresh-of_find_first username_of (user_named u.username) u.username us
      (λ x e. (eq_iff x.username u.username).1 e) (find_first-none _ us h))

pub add_user-IsWellFormed :
    (m : Memory) (u : User)
    → is_some (find_first (user_named u.username) m.users) ≡ false
    → IsWellFormed m
    → IsWellFormed (record m { users = m.users ++ u ∷ [] })
add_user-IsWellFormed m u free w = record {
  usernames = IsDistinct-new_user m.users u free w.usernames;
  identities = w.identities;
  linked =
      AllLinked-mono m.users (m.users ++ u ∷ []) m.user_identities (IsUser-append m.users u)
        w.linked;
  connections = w.connections;
  bindings = w.bindings;
  manifests = w.manifests;
  keyed = w.keyed;
}

edit_user-IsWellFormed :
    (m : Memory) (p : User → Bool) (f : User → User)
    → ((u : User) → (f u).username ≡ u.username)
    → ((u : User) → (f u).id ≡ u.id)
    → IsWellFormed m
    → IsWellFormed (record m { users = update_first p f m.users })
edit_user-IsWellFormed m p f names ids w = record {
  usernames = IsDistinct-update_first username_of p f m.users names w.usernames;
  identities = w.identities;
  linked =
      AllLinked-mono m.users (update_first p f m.users) m.user_identities
        (λ id. IsUser-update_first p f m.users id ids) w.linked;
  connections = w.connections;
  bindings = w.bindings;
  manifests = w.manifests;
  keyed = w.keyed;
}

-- The invariant says nothing of password hashes.
rehash-IsWellFormed :
    (m : Memory) (hashes : Dict String)
    → IsWellFormed m
    → IsWellFormed (record m { password_hashes = hashes })
rehash-IsWellFormed m hashes w = IsWellFormed-frame m (record m { password_hashes = hashes }) refl w

-- Each proof follows the guards of its method: the context, the searches, the new id.
pub create_user-IsWellFormed :
    (c : Call) (username hash role : String) (m : Memory)
    → IsWellFormed m
    → IsWellFormed (create_user c username hash role m).1
unfolding create_user
create_user-IsWellFormed c username hash role m w = elim (Option-cases c.ctx_err) [
  | inr (e, ended) ↦ rw ended w
  | inl live ↦ rw live (elim (Bool-cases (is_some (find_first (user_named username) m.users))) [
    | inl taken ↦ rw taken w
    | inr free ↦ rw free (elim (Result-cases c.new_id) [
      | inr (e, no_id) ↦ rw no_id w
      | inl (id, made) ↦ rw made (
          rehash-IsWellFormed _ (keep_hash username hash m.password_hashes)
            (add_user-IsWellFormed m (new_user id username role c.now) free w))
    ])
  ])
]

pub update_user-IsWellFormed :
    (c : Call) (user_id : String) (disabled : Option Bool) (role : Option String) (m : Memory)
    → IsWellFormed m
    → IsWellFormed (update_user c user_id disabled role m).1
unfolding update_user
update_user-IsWellFormed c user_id disabled role m w = elim (Option-cases c.ctx_err) [
  | inr (e, ended) ↦ rw ended w
  | inl live ↦ rw live (elim (Option-cases (find_first (user_with_id user_id) m.users)) [
    | inl missing ↦ rw missing w
    | inr (u, there) ↦ rw there (
        edit_user-IsWellFormed m (user_with_id user_id) (edit_user c.now disabled role) (λ u. refl)
          (λ u. refl) w)
  ])
]

pub set_password_hash-IsWellFormed :
    (username hash : String) (m : Memory)
    → IsWellFormed m
    → IsWellFormed (set_password_hash username hash m).1
unfolding set_password_hash
set_password_hash-IsWellFormed username hash m w =
    rehash-IsWellFormed m (insert username hash m.password_hashes) w

pub bootstrap_admin-IsWellFormed :
    (c : Call) (username hash : String) (m : Memory)
    → IsWellFormed m
    → IsWellFormed (bootstrap_admin c username hash m).1
unfolding bootstrap_admin
bootstrap_admin-IsWellFormed c username hash m w = elim (Option-cases c.ctx_err) [
  | inr (e, ended) ↦ rw ended w
  | inl live ↦ rw live (elim (Bool-cases (is_some (find_first (user_named username) m.users))) [
    | inl taken ↦ rw taken (
        rehash-IsWellFormed _ (keep_hash username hash m.password_hashes) (
          edit_user-IsWellFormed m (user_named username) (make_admin c.now) (λ u. refl) (λ u. refl)
            w))
    | inr free ↦ rw free (elim (Result-cases c.new_id) [
      | inr (e, no_id) ↦ rw no_id w
      | inl (id, made) ↦ rw made (
          rehash-IsWellFormed _ (keep_hash username hash m.password_hashes)
            (add_user-IsWellFormed m (new_user id username "admin" c.now) free w))
    ])
  ])
]
