-- ===== src/Store/Users/Names.antt =====
-- internal/store/store.go: accounts by their usernames.
use shclop.Prelude.{
  subst, is_some, ◌++◌, Bool-cases, String, ◌≡◌, false, none, some, List, [], ◌∷◌, arith, ◌==◌,
  eq_iff, if◌then◌else◌, inl, inr,
}
use shclop.Prelude.Lists.{find_first, find_first-append_single}
use shclop.Domain.{User}
use shclop.Store.Memory.{Result-cases, conflict, ok, err, Call, Memory}
use shclop.Store.Users.{user_named, new_user, create_user, get_user_by_username}

find_first-add_user :
    (us : List User) (u : User) (name : String)
    → is_some (find_first (user_named u.username) us) ≡ false
    → find_first (user_named name) (us ++ u ∷ [])
      ≡ (if u.username == name then some u else find_first (user_named name) us)
find_first-add_user us u name free = elim (Bool-cases (u.username == name)) [
  | inl same ↦
      let e : u.username ≡ name = ground (arith, eq_iff u.username name) in
      rw (find_first-append_single, same)
        (ground (arith, subst (λ n. is_some (find_first (user_named n) us) ≡ false) e free))
  | inr other ↦ rw (find_first-append_single, other) (ground arith)
]

-- After an account was created under a name, while the later context has not ended: a lookup by that name returns the account, a lookup by
-- any other name returns what it did, and creating another account under the name is a conflict.
pub create_user-named :
    (c c' : Call) (username hash role : String) (m : Memory) {u : User}
    → (create_user c username hash role m).0 ≡ ok u
    → c'.ctx_err ≡ none
    → (name : String)
    → ((get_user_by_username c' name (create_user c username hash role m).1).0
        ≡ (if username == name then ok u else (get_user_by_username c' name m).0))
      × ((hash' role' : String)
          → (create_user c' username hash' role' (create_user c username hash role m).1).0
            ≡ err conflict)
unfolding create_user get_user_by_username
create_user-named c c' username hash role m {u} done live name =
    let add =
      λ (k : String) (i : String). find_first-add_user m.users (new_user i username role c.now) k in
    elim (Result-cases c.new_id) [
      | inr (e, no_id) ↦ absurd (ground arith)
      | inl (i, made) ↦ (
        ground (arith, add name i),
        λ hash' role'. ground (arith, add username i, eq_iff username username),
      )
    ]
