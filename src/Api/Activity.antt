-- ===== src/Api/Activity.antt =====
-- internal/api/server.go: the log of activity, and the part of it that a user sees.
use shclop.Prelude.{
  Option, none, some, false, true, not, ◌&&◌, ◌||◌, eqb, Bool, ℕ, zero, suc, ◌≤◌, ◌≡◌, refl, ap,
  String, Bool-cases, inl, inr, List, [], ◌∷◌, ◌++◌, arith, ltb, if◌then◌else◌, ◌==◌, ◌-◌,
}
use shclop.Prelude.Lists.{length, drop, length-drop, select}
use shclop.Prelude.Dict.{Dict}
use shclop.Prelude.Text.{trim_space, contains}
use shclop.Domain.{User}
use shclop.Store.Memory.{Call}
use shclop.Api.Access.{require_user}
use shclop.Api.Server.{
  of_activity, Handler, ◌>>=◌, pure, respond, bad_request, ActivityEntry, Detail, Server,
  trim_activity, record_activity,
}

abbrev by_actor : String → ActivityEntry → Bool
by_actor user_id entry = entry.actor_id == user_id

-- An administrator sees the whole log, anyone else the entries of their own.
unfoldable pub activity_for_user : User → Server → List ActivityEntry
activity_for_user user s =
    if user.role == "admin" then s.activity else select (by_actor user.id) s.activity

-- The parameters of the request.
pub record ActivityQuery : Type 0 where
  pub types : List String
  pub actor_id : String
  pub agent_id : String
  pub text : String
  pub since : String
  pub limit : String

-- `strings.ToLower`, `time.Parse` of RFC 3339, and `strconv.Atoi` of a number that is not negative.
pub record ActivityLibrary : Type 0 where
  pub to_lower : String → String
  pub parse_time : String → Option ℕ
  pub atoi : String → Option ℕ

abbrev since_of : ActivityLibrary → String → Handler ℕ
since_of lib raw = if raw == "" then pure 0 else (elim (lib.parse_time raw) [
  | none ↦ bad_request "bad request: invalid 'since' (expected RFC3339)"
  | some t ↦ pure t
])

abbrev limited : Option ℕ → Handler ℕ
limited none = bad_request "bad request: invalid 'limit'"
limited (some n) =
    if ltb n 1
    then bad_request "bad request: invalid 'limit'"
    else pure (if ltb 200 n then 200 else n)

abbrev limit_of : ActivityLibrary → String → Handler ℕ
limit_of lib raw = if raw == "" then pure 200 else limited (lib.atoi raw)

unfoldable pub types_of : List String → List String
types_of [] = []
types_of (t ∷ ts) =
    let later = types_of ts in if trim_space t == "" then later else trim_space t ∷ later

unfoldable pub is_type : String → List String → Bool
is_type kind [] = false
is_type kind (t ∷ ts) = kind == t || is_type kind ts

abbrev is_empty : List String → Bool
is_empty [] = true
is_empty (t ∷ ts) = false

unfoldable pub is_asked_for : ActivityLibrary → ActivityQuery → ℕ → ActivityEntry → Bool
unfolding types_of is_type
is_asked_for lib query since entry =
    let types = types_of query.types in
    let actor_id = trim_space query.actor_id in
    let agent_id = trim_space query.agent_id in
    let text = lib.to_lower (trim_space query.text) in
    (is_empty types || is_type entry.kind types)
    && (actor_id == "" || entry.actor_id == actor_id)
    && (agent_id == "" || entry.agent_id == agent_id)
    && (eqb since 0 || not (ltb entry.time since))
    && (text == "" || contains text (lib.to_lower entry.message))

-- The last entries, up to the limit.
unfoldable pub last_entries : ℕ → List ActivityEntry → List ActivityEntry
last_entries limit entries =
    if ltb limit (length entries) then drop (length entries - limit) entries else entries

abbrev answer_activity : ActivityLibrary → ActivityQuery → User → ℕ → ℕ → Handler (Unit {0})
answer_activity lib query user since limit s =
    respond 200
      (of_activity
        (last_entries limit (select (is_asked_for lib query since) (activity_for_user user s))))
      s

unfoldable pub handle_activity :
    ActivityLibrary → Call → String → ActivityQuery → Handler (Unit {0})
unfolding is_asked_for last_entries
handle_activity lib c authorization query = do
  user ← require_user c authorization
  since ← since_of lib (trim_space query.since)
  limit ← limit_of lib (trim_space query.limit)
  answer_activity lib query user since limit

drop-suffix {ℓ} : {A : Type ℓ} (n : ℕ) (xs : List A) → (front : List A) × (xs ≡ front ++ drop n xs)
drop-suffix zero xs = ([], refl)
drop-suffix (suc n) [] = ([], refl)
drop-suffix (suc n) (x ∷ xs) = let (front, e) = drop-suffix n xs in (x ∷ front, ap (λ ys. x ∷ ys) e)

trim_activity_bounded : (entries : List ActivityEntry) → length (trim_activity entries) ≤ 200
unfolding trim_activity
trim_activity_bounded entries = ground (arith, length-drop (length entries - 200) entries)

trim_activity_suffix :
    (entries : List ActivityEntry)
    → (front : List ActivityEntry) × (entries ≡ front ++ trim_activity entries)
unfolding trim_activity
trim_activity_suffix entries = elim (Bool-cases (ltb 200 (length entries))) [
  | inl long ↦ rw long (drop-suffix (length entries - 200) entries)
  | inr short ↦ rw short ([], refl)
]

-- After an event was recorded the log has at most 200 entries, and they are the latest ones: the log
-- before with the event at its end, less some of its oldest entries. Nothing else has changed.
pub record_activity_bounded :
    (c : Call) (kind actor_id agent_id message : String) (details : Dict Detail) (s : Server)
    → let entry : ActivityEntry = record {
      time = c.now;
      kind = kind;
      actor_id = actor_id;
      agent_id = agent_id;
      message = message;
      details = details;
    } in
      let after = (record_activity c kind actor_id agent_id message details s).1 in
      (length after.activity ≤ 200)
      × ((oldest : List ActivityEntry) × (s.activity ++ entry ∷ [] ≡ oldest ++ after.activity))
      × (after.store ≡ s.store)
      × (after.tokens ≡ s.tokens)
      × (after.sessions ≡ s.sessions)
unfolding record_activity
record_activity_bounded c kind actor_id agent_id message details s =
    (trim_activity_bounded _, trim_activity_suffix _, refl, refl, refl)
