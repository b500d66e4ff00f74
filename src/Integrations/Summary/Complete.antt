-- ===== src/Integrations/Summary/Complete.antt =====
-- internal/integrations/service.go: no connection of a user is missing from the summary.
use shclop.Prelude.{
  ℕ, suc, ◌≡◌, refl, inl, inr, subst, sym, String, Bool, Bool-cases, true, false, ◌&&◌, ◌||◌, none,
  is_none, List, [], ◌∷◌, ◌++◌, arith, eq_iff, ◌==◌,
}
use shclop.Prelude.Lists.{find_first}
use shclop.Domain.{IntegrationConnection, ProviderSummary}
use shclop.Plugins.Manifest.{Manifest}
use shclop.Store.Memory.{Call, Memory}
use shclop.Store.Connections.{
  connection_of, contains, user_scoped, collect_provider_ids, get_integration_connection,
  list_user_integration_provider_ids,
}
use shclop.Integrations.{Service}
use shclop.Integrations.Summary.{provider_summary, summaries, orphans, build_summary}

unfoldable pub has_connection : String → String → List IntegrationConnection → Bool
has_connection user_id provider_id [] = false
has_connection user_id provider_id (x ∷ xs) =
    user_scoped user_id x && x.provider_id == provider_id || has_connection user_id provider_id xs

unfoldable pub lists : String → List Manifest → Bool
lists provider_id [] = false
lists provider_id (manifest ∷ manifests) =
    manifest.spec.id == provider_id || lists provider_id manifests

-- The provider is in the summary, as one with a connection.
unfoldable pub is_shown : String → List ProviderSummary → Bool
is_shown provider_id [] = false
is_shown provider_id (p ∷ ps) =
    p.provider_id == provider_id && p.connected || is_shown provider_id ps

contains-append_single :
    (k j : String) (out : List String) → contains k (out ++ j ∷ []) ≡ (contains k out || j == k)
unfolding contains
contains-append_single k j [] = ground arith
contains-append_single k j (i ∷ out) = ground (arith, contains-append_single k j out)

contains-collect_provider_ids :
    (user_id provider_id : String) (out : List String) (xs : List IntegrationConnection)
    → contains provider_id (collect_provider_ids user_id out xs)
      ≡ (contains provider_id out || has_connection user_id provider_id xs)
unfolding collect_provider_ids has_connection
contains-collect_provider_ids user_id provider_id out [] = ground arith
contains-collect_provider_ids user_id provider_id out (x ∷ xs) = ground (
  arith,
  contains-collect_provider_ids user_id provider_id out xs,
  contains-collect_provider_ids user_id provider_id (out ++ x.provider_id ∷ []) xs,
  contains-append_single provider_id x.provider_id out,
  eq_iff x.provider_id provider_id,
)

find_first-has_connection :
    (user_id provider_id : String) (xs : List IntegrationConnection)
    → has_connection user_id provider_id xs ≡ true
    → is_none (find_first (connection_of user_id provider_id) xs) ≡ false
unfolding find_first has_connection
find_first-has_connection user_id provider_id [] h = ground arith
find_first-has_connection user_id provider_id (x ∷ xs) h =
    ground (arith, find_first-has_connection user_id provider_id xs)

is_shown-append :
    (k : String) (ps qs : List ProviderSummary)
    → is_shown k (ps ++ qs) ≡ (is_shown k ps || is_shown k qs)
unfolding is_shown
is_shown-append k [] qs = refl
is_shown-append k (p ∷ ps) qs = ground (arith, is_shown-append k ps qs)

is_shown-orphans :
    (svc : Service) (k : String) (ids : List String)
    → is_none (svc.get k) ≡ true
    → contains k ids ≡ true
    → is_shown k (orphans svc ids) ≡ true
unfolding orphans contains is_shown
is_shown-orphans svc k [] absent h = ground arith
is_shown-orphans svc k (j ∷ ids) absent h =
    ground (arith, eq_iff j k, is_shown-orphans svc k ids absent)

is_shown-provider_summary :
    (at : ℕ → Call) (user_id : String) (manifest : Manifest) (m : Memory)
    → (at 0).ctx_err ≡ none
    → has_connection user_id manifest.spec.id m.integrations ≡ true
    → (provider_summary at user_id manifest.spec m).connected ≡ true
unfolding provider_summary get_integration_connection
is_shown-provider_summary at user_id manifest m live has =
    let there = find_first-has_connection user_id manifest.spec.id m.integrations has in
    ground arith

is_shown-summaries :
    (at : ℕ → ℕ → Call) (i : ℕ) (user_id k : String) (manifests : List Manifest) (m : Memory)
    → ((i j : ℕ) → (at i j).ctx_err ≡ none)
    → has_connection user_id k m.integrations ≡ true
    → lists k manifests ≡ true
    → is_shown k (summaries at i user_id manifests m) ≡ true
unfolding summaries lists is_shown
is_shown-summaries at i user_id k [] m live has h = ground arith
is_shown-summaries at i user_id k (manifest ∷ manifests) m live has h =
    elim (Bool-cases (manifest.spec.id == k)) [
      | inr other ↦
          ground (arith, other, h, is_shown-summaries at (suc i) user_id k manifests m live has)
      | inl same ↦
          let e : manifest.spec.id ≡ k = ground (arith, eq_iff manifest.spec.id k) in
          let there =
            is_shown-provider_summary (at i) user_id manifest m (live i 0)
              (subst (λ id. has_connection user_id id m.integrations ≡ true) (sym e) has) in
          ground (arith, there, same)
    ]

-- While no context has ended and the registry lists what it has, every provider that the user has a
-- connection with, in the user's own scope, is in the summary as connected, also where the registry
-- has no plugin for it any more.
pub build_summary_complete :
    (svc : Service) (manifests : List Manifest) (at : ℕ → ℕ → Call) (last : Call)
    (user_id provider_id : String) (m : Memory)
    → ((i j : ℕ) → (at i j).ctx_err ≡ none)
    → last.ctx_err ≡ none
    → (is_none (svc.get provider_id) ≡ false → lists provider_id manifests ≡ true)
    → has_connection user_id provider_id m.integrations ≡ true
    → is_shown provider_id (build_summary svc manifests at last user_id m) ≡ true
unfolding build_summary list_user_integration_provider_ids contains
build_summary_complete svc manifests at last user_id provider_id m live ends listed has =
    let ids = collect_provider_ids user_id [] m.integrations in
    let found = contains-collect_provider_ids user_id provider_id [] m.integrations in
    let split =
      is_shown-append provider_id (summaries at 0 user_id manifests m) (orphans svc ids) in
    elim (Bool-cases (is_none (svc.get provider_id))) [
      | inl absent ↦
          rw ends (ground (arith, split, found, has, is_shown-orphans svc provider_id ids absent))
      | inr there ↦ rw ends (
          ground (
            arith,
            split,
            listed there,
            is_shown-summaries at 0 user_id provider_id manifests m live has,
          ))
    ]
