-- ===== src/Tests/StoreRuns.antt =====
-- internal/store/store.go, internal/auth/auth.go: runs of the store's methods and of a login.
use shclop.Auth.{resolve, login}
use shclop.Auth.Sessions.{login_sound}
use shclop.Store.Connections.Lookup.{get-upsert}
use shclop.Store.Connections.{upsert_integration_connection, get_integration_connection}
use shclop.Store.Users.{get_password_hash, get_user_by_username, create_user}
use shclop.Prelude.Lists.{find_first}
use shclop.Store.Identities.{identity_of, owner_of}
use shclop.Store.Identities.Ownership.{run-owner_stable}
use shclop.Store.Errors.{exec_error_unchanged}
use shclop.Store.Invariant.Reachable.{run-new_memory-IsWellFormed}
use shclop.Store.Invariant.Links.{IsWellFormed}
use shclop.Tests.Data.{compare_equal, alice, populated, github, carol_at_idp, call}
use shclop.Store.Commands.{
  exec, run, connection_upsert, identity_link, identity_create, user_create, Command,
}
use shclop.Store.Memory.{new_memory, conflict, ok, Call}
use shclop.Prelude.{
  eq_iff, ◌==◌, if◌then◌else◌, arith, ◌≡◌, refl, true, false, none, some, List, [], ◌∷◌, String,
}

abbrev calls : List (Call × Command)
calls =
    (call "u9" 5, user_create "dora" "h" "user")
    ∷ (call "u8" 6, identity_create carol_at_idp)
    ∷ (call "x" 7, identity_link "u9" "idp" "s9" "d@x" "Dora")
    ∷ (call "x" 8, connection_upsert github)
    ∷ []

run-new_memory-IsWellFormed_example : IsWellFormed (run calls new_memory)
run-new_memory-IsWellFormed_example = run-new_memory-IsWellFormed calls

exec_error_unchanged_example :
    (exec (call "x" 9) (user_create "alice" "h" "user") populated).1 ≡ populated
unfolding exec create_user
exec_error_unchanged_example =
    exec_error_unchanged (call "x" 9) (user_create "alice" "h" "user") populated {e = conflict} refl

run-owner_stable_example :
    owner_of (find_first (identity_of "idp" "s1") (run calls populated).user_identities)
    ≡ ("u1", true)
unfolding find_first
run-owner_stable_example =
    run-owner_stable calls populated "u1" "idp" "s1" (refl, (refl, (refl, (refl, tt)))) refl

get-upsert_example :
    (get_integration_connection
      (call "x" 10)
      "u1"
      "github"
      (upsert_integration_connection (call "x" 9) github populated).1).0
    ≡ (upsert_integration_connection (call "x" 9) github populated).0
get-upsert_example = get-upsert (call "x" 9) (call "x" 10) github "u1" "github" populated refl refl

populated-IsWellFormed : IsWellFormed populated
unfolding find_first
populated-IsWellFormed = record {
  usernames = ((ground (arith, eq_iff "alice" "bob"), tt), (tt, tt));
  identities = (tt, tt);
  linked = (refl, tt);
  connections = (tt, tt);
  bindings = (tt, tt);
  manifests = tt;
  keyed = tt;
}

login_sound_example :
    ((get_user_by_username (call "x" 9) "alice" populated).0 ≡ ok alice)
    × (alice.disabled ≡ false)
    × ((hash : String) × ((get_password_hash "alice" populated).0 ≡ ok hash)
        × (compare_equal hash "hash" ≡ true))
    × ((k : String)
        → resolve k (login compare_equal (call "x" 9) "alice" "hash" (ok "t") populated []).1
          ≡ (if "t" == k then some alice else resolve k []))
unfolding login get_user_by_username get_password_hash find_first shclop.Prelude.Dict.lookup
login_sound_example =
    login_sound compare_equal (call "x" 9) "alice" "hash" (ok "t") populated [] {u = alice}
      {t = "t"} refl
