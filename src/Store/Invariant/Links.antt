-- ===== src/Store/Invariant/Links.antt =====
-- internal/store/store.go: the keys of the tables, the reference from an identity to its user, and
-- the invariant over them.
use shclop.Prelude.{
  sym, subst, ◌==◌, String, ◌≡◌, Bool, true, some, List, [], ◌∷◌, ◌++◌, map, arith, is_some,
  Bool-cases, inl, inr, eq_iff,
}
use shclop.Prelude.Lists.{find_first, update_first, remove_first, find_first-append_single}
use shclop.Prelude.Keys.{IsDistinct}
use shclop.Prelude.Dict.{Dict, lookup, insert, remove, keys}
use shclop.Domain.{User, UserIdentity, IntegrationConnection, AgentIntegration, PluginManifest}
use shclop.Store.Memory.{Memory}
use shclop.Store.Users.{user_with_id}

abbrev pub username_of : User → String
username_of u = u.username

abbrev pub identity_key : UserIdentity → String × String
identity_key x = (x.provider_name, x.subject)

abbrev pub connection_key : IntegrationConnection → String × String
connection_key x = (x.user_id, x.provider_id)

abbrev pub binding_key : AgentIntegration → String × String
binding_key x = (x.agent_id, x.provider_id)

-- A user with this id is in the table.
abbrev pub IsUser : List User → String → Type 0
IsUser users id = is_some (find_first (user_with_id id) users) ≡ true

abbrev pub AllLinked : List User → List UserIdentity → Type 0
AllLinked users [] = Unit
AllLinked users (x ∷ xs) = IsUser users x.user_id × AllLinked users xs

abbrev pub AllKeyed : Dict PluginManifest → Type 0
AllKeyed [] = Unit
AllKeyed ((k, pm) ∷ rest) = (pm.id ≡ k) × AllKeyed rest

pub record IsWellFormed (m : Memory) : Type 0 where
  pub usernames : IsDistinct (map username_of m.users)
  pub identities : IsDistinct (map identity_key m.user_identities)
  pub linked : AllLinked m.users m.user_identities
  pub connections : IsDistinct (map connection_key m.integrations)
  pub bindings : IsDistinct (map binding_key m.agent_integrations)
  pub manifests : IsDistinct (keys m.plugin_manifests)
  pub keyed : AllKeyed m.plugin_manifests

-- Users are added and changed, never removed, so a link stays good.
pub IsUser-append :
    (us : List User) (u : User) (id : String) → IsUser us id → IsUser (us ++ u ∷ []) id
IsUser-append us u id h = rw find_first-append_single (ground arith)

pub IsUser-update_first :
    (p : User → Bool) (f : User → User) (us : List User) (id : String)
    → ((u : User) → (f u).id ≡ u.id)
    → IsUser us id
    → IsUser (update_first p f us) id
unfolding find_first update_first
IsUser-update_first p f [] id same h = h
IsUser-update_first p f (u ∷ us) id same h =
    ground (arith, same u, IsUser-update_first p f us id same)

pub AllLinked-mono :
    (us vs : List User) (xs : List UserIdentity)
    → ((id : String) → IsUser us id → IsUser vs id)
    → AllLinked us xs
    → AllLinked vs xs
AllLinked-mono us vs [] up h = tt
AllLinked-mono us vs (x ∷ xs) up h = (up x.user_id h.0, AllLinked-mono us vs xs up h.1)

pub AllLinked-append :
    (us : List User) (xs : List UserIdentity) (y : UserIdentity)
    → AllLinked us xs
    → IsUser us y.user_id
    → AllLinked us (xs ++ y ∷ [])
AllLinked-append us [] y h k = (k, tt)
AllLinked-append us (x ∷ xs) y h k = (h.0, AllLinked-append us xs y h.1 k)

pub AllLinked-remove_first :
    (us : List User) (p : UserIdentity → Bool) (xs : List UserIdentity)
    → AllLinked us xs
    → AllLinked us (remove_first p xs)
unfolding remove_first
AllLinked-remove_first us p [] h = h
AllLinked-remove_first us p (x ∷ xs) h = elim (Bool-cases (p x)) [
  | inl hit ↦ rw hit h.1
  | inr miss ↦ rw miss (h.0, AllLinked-remove_first us p xs h.1)
]

pub AllLinked-update_first :
    (us : List User) (p : UserIdentity → Bool) (f : UserIdentity → UserIdentity)
    (xs : List UserIdentity)
    → ((x : UserIdentity) → (f x).user_id ≡ x.user_id)
    → AllLinked us xs
    → AllLinked us (update_first p f xs)
unfolding update_first
AllLinked-update_first us p f [] same h = h
AllLinked-update_first us p f (x ∷ xs) same h = elim (Bool-cases (p x)) [
  | inl hit ↦ rw (hit, same x) h
  | inr miss ↦ rw miss (h.0, AllLinked-update_first us p f xs same h.1)
]

pub AllKeyed-insert :
    (k : String) (pm : PluginManifest) (d : Dict PluginManifest)
    → pm.id ≡ k
    → AllKeyed d
    → AllKeyed (insert k pm d)
unfolding insert
AllKeyed-insert k pm [] e h = (e, tt)
AllKeyed-insert k pm ((j, old) ∷ d) e h = elim (Bool-cases (j == k)) [
  | inl hit ↦ rw hit (cc ((eq_iff j k).0 hit, e), h.1)
  | inr miss ↦ rw miss (h.0, AllKeyed-insert k pm d e h.1)
]

pub AllKeyed-remove : (k : String) (d : Dict PluginManifest) → AllKeyed d → AllKeyed (remove k d)
unfolding remove
AllKeyed-remove k [] h = h
AllKeyed-remove k ((j, old) ∷ d) h = elim (Bool-cases (j == k)) [
  | inl hit ↦ rw hit (AllKeyed-remove k d h.1)
  | inr miss ↦ rw miss (h.0, AllKeyed-remove k d h.1)
]

-- What a lookup finds carries the key under which it was found.
pub lookup_keyed :
    (k : String) (d : Dict PluginManifest) {pm : PluginManifest}
    → AllKeyed d
    → lookup k d ≡ some pm
    → pm.id ≡ k
unfolding lookup
lookup_keyed k [] h e = ground arith
lookup_keyed k ((j, old) ∷ d) {pm} h e = ground (arith, eq_iff j k, lookup_keyed k d {pm = pm} h.1)

-- The tables that the invariant reads.
abbrev pub Tables : Type 0
Tables =
    List User
    × List UserIdentity
    × List IntegrationConnection
    × List AgentIntegration
    × Dict PluginManifest

abbrev pub tables : Memory → Tables
tables m = (m.users, m.user_identities, m.integrations, m.agent_integrations, m.plugin_manifests)

-- A method that leaves these tables alone keeps the invariant.
pub IsWellFormed-frame : (m m' : Memory) → tables m' ≡ tables m → IsWellFormed m → IsWellFormed m'
IsWellFormed-frame m m' e w = record {
  usernames = subst (λ (t : Tables). IsDistinct (map username_of t.0)) (sym e) w.usernames;
  identities = subst (λ (t : Tables). IsDistinct (map identity_key t.1)) (sym e) w.identities;
  linked = subst (λ (t : Tables). AllLinked t.0 t.1) (sym e) w.linked;
  connections = subst (λ (t : Tables). IsDistinct (map connection_key t.2)) (sym e) w.connections;
  bindings = subst (λ (t : Tables). IsDistinct (map binding_key t.3)) (sym e) w.bindings;
  manifests = subst (λ (t : Tables). IsDistinct (keys t.4)) (sym e) w.manifests;
  keyed = subst (λ (t : Tables). AllKeyed t.4) (sym e) w.keyed;
}
