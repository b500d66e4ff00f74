-- ===== src/Api/Relay/Routed.antt =====
-- internal/api/server.go: whose task is routed, and where to.
use shclop.Prelude.{
  subst, ◌≡◌, ◌⊎◌, refl, sym, ap, ◌∙◌, inl, inr, ℕ, String, Bool, true, Option, none, some, ◌==◌,
  arith, eq_iff, Option-cases, Bool-cases,
}
use shclop.Prelude.Text.{trim_space}
use shclop.Prelude.Lists.{find_first}
use shclop.Prelude.Dict.{lookup}
use shclop.Domain.{User, Agent}
use shclop.Store.Memory.{ok, Call}
use shclop.Store.Users.{get_user}
use shclop.Store.Agents.{get_agent}
use shclop.Gateway.{
  Envelope, RuntimeRegistry, event_key, new_waiter, is_key, open_task, send_task, Sent, sent_to,
  not_connected, not_written, task_key,
}
use shclop.Api.Server.{Server, Flow, Flow-cases, go, record_activity}
use shclop.Api.Access.{require_user_from_request, own_agent, enforce_current_user}
use shclop.Api.Access.Current.{own_agent_go, own_agent_sound}
use shclop.Api.Relay.{
  ChatRequest, Chat, chat_routed, chat_with, task_of, text_of, handle_web_socket,
}

require_user_from_request_reads :
    (c : Call) (cookie : Option String) (authorization : String) (s : Server)
    → (require_user_from_request c cookie authorization s).1 ≡ s
unfolding require_user_from_request enforce_current_user get_user
require_user_from_request_reads c cookie authorization s = ground arith

require_user_from_request_go :
    (c : Call) (cookie : Option String) (authorization : String) (s : Server) {u : User}
    → (require_user_from_request c cookie authorization s).0 ≡ go u
    → require_user_from_request c cookie authorization s ≡ (go u, s)
require_user_from_request_go c cookie authorization s h =
    λ i. (h i, require_user_from_request_reads c cookie authorization s i)

-- The task went to the connection of the agent, and its waiter is there, and new.
send_task_sound :
    (agent_id : String) (task : Envelope) (write : ℕ → Envelope → Bool) (r : RuntimeRegistry)
    {conn : ℕ} {sent : Envelope}
    → (send_task agent_id task write r).0 ≡ sent_to conn sent
    → (sent ≡ task)
      × (lookup agent_id r.runtimes ≡ some conn)
      × (write conn task ≡ true)
      × (find_first (is_key (task_key agent_id task)) (send_task agent_id task write r).1.waiters
          ≡ some (task_key agent_id task, new_waiter))
unfolding send_task open_task find_first
send_task_sound agent_id task write r {conn} {sent} h =
    elim (Option-cases (lookup agent_id r.runtimes)) [
      | inl away ↦ absurd (ground (arith, away, h))
      | inr (current, there) ↦ elim (Bool-cases (write current task)) [
        | inr lost ↦ absurd (ground (arith, there, lost, h))
        | inl arrived ↦
            let same : current ≡ conn = ground (arith, there, arrived, h) in
            (
              ground (arith, there, arrived, h),
              there ∙ ap some same,
              ap (λ k. write k task) (sym same) ∙ arrived,
              ground (
                arith,
                there,
                arrived,
                eq_iff agent_id agent_id,
                eq_iff task.message_id task.message_id,
              ),
            )
      ]
    ]

Sent-cases :
    (x : Sent)
    → ((conn : ℕ) × (task : Envelope) × (x ≡ sent_to conn task))
      ⊎ ((x ≡ not_connected) ⊎ (x ≡ not_written))
Sent-cases (sent_to conn task) = inl (conn, task, refl)
Sent-cases not_connected = inr (inl refl)
Sent-cases not_written = inr (inr refl)

-- A task that was written: it is a task for the agent, its connection is that of the agent in the registry
-- before, and a new waiter for its events is in the registry after.
abbrev pub IsRouted :
    (ℕ → Envelope → Bool) → String → ℕ → RuntimeRegistry → RuntimeRegistry → Envelope → Type 0
IsRouted write agent_id conn before after task =
    (task.agent_id ≡ agent_id)
    × (task.kind ≡ "task.run")
    × (lookup agent_id before.runtimes ≡ some conn)
    × (write conn task ≡ true)
    × (find_first (is_key (event_key task)) after.waiters ≡ some (event_key task, new_waiter))

chat_with-IsRouted :
    (c : Call) (user : User) (agent_id session_id message_id : String) (write : ℕ → Envelope → Bool)
    (message : Option ChatRequest) (s : Server) {conn : ℕ} {sent : Envelope}
    → (chat_with c user agent_id session_id message_id write message s).0
      ≡ go (chat_routed conn sent)
    → IsRouted write agent_id conn s.runtime
        (chat_with c user agent_id session_id message_id write message s).1.runtime
        sent
unfolding record_activity
chat_with-IsRouted c user agent_id session_id message_id write none s h = absurd (ground (arith, h))
chat_with-IsRouted c user agent_id session_id message_id write (some request) s {conn} {sent} h =
    let task = task_of session_id message_id agent_id request in
    elim (Bool-cases (text_of request == "")) [
      | inl blank ↦ absurd (ground (arith, blank, h))
      | inr given ↦ elim (Sent-cases (send_task agent_id task write s.runtime).0) [
        | inr (inl away) ↦ absurd (ground (arith, given, away, h))
        | inr (inr lost) ↦ absurd (ground (arith, given, lost, h))
        | inl (k, t, went) ↦
            let (its, connected, written, waits) =
              send_task_sound agent_id task write s.runtime went in
            let same : k ≡ conn = ground (arith, went, given, h) in
            let same_task : task ≡ sent = sym its ∙ ground (arith, went, given, h) in
            subst
              (λ z.
                IsRouted write agent_id conn s.runtime
                  (chat_with c user agent_id session_id message_id write (some request) s).1.runtime
                  z)
              same_task
              (
                refl,
                refl,
                connected ∙ ap some same,
                ap (λ z. write z task) (sym same) ∙ written,
                ground (arith, given, went, waits),
              )
      ]
    ]

-- A task is routed only for the owner of the agent or an administrator. It was then written to the connection that
-- the registry has for this agent, and a new waiter waits for its events.
pub handle_web_socket_sound :
    (at : ℕ → Call) (cookie : Option String) (authorization agent_query : String)
    (message : Option ChatRequest) (session_id message_id : String) (write : ℕ → Envelope → Bool)
    (s : Server) {conn : ℕ} {task : Envelope}
    → (handle_web_socket at cookie authorization agent_query message session_id message_id write
        s).0
      ≡ go (chat_routed conn task)
    → (user : User) × (agent : Agent) × ((require_user_from_request (at 0) cookie authorization s).0
        ≡ go user)
      × ((get_agent (at 1) (trim_space agent_query) s.store).0 ≡ ok agent)
      × ((agent.owner_user_id ≡ user.id) ⊎ (user.role ≡ "admin"))
      × IsRouted write
          (trim_space agent_query)
          conn
          s.runtime
          (handle_web_socket at cookie authorization agent_query message session_id message_id write
            s).1.runtime
          task
unfolding handle_web_socket
handle_web_socket_sound at cookie authorization agent_query message session_id message_id write s
      {conn} {task} h =
    elim (Flow-cases (require_user_from_request (at 0) cookie authorization s).0) [
      | inr (r, e) ↦ absurd (ground (arith, e, h))
      | inl (u, e) ↦
          let who = require_user_from_request_go (at 0) cookie authorization s e in
          elim (Bool-cases (trim_space agent_query == "")) [
            | inl blank ↦ absurd (ground (arith, who, blank, h))
            | inr given ↦ elim (Flow-cases (own_agent (at 1) u (trim_space agent_query) s).0) [
              | inr (r, f) ↦ absurd (ground (arith, who, given, f, h))
              | inl (a, f) ↦
                  let which = own_agent_go (at 1) u (trim_space agent_query) s f in
                  let (there, owner) = own_agent_sound (at 1) u (trim_space agent_query) s f in
                  let same : handle_web_socket at cookie authorization agent_query message
                        session_id message_id write s
                      ≡ chat_with (at 2) u (trim_space agent_query) session_id message_id write
                          message s =
                    rw (who, given, which) refl in
                  let routed =
                    chat_with-IsRouted (at 2) u (trim_space agent_query) session_id message_id write
                      message s (sym (ap (λ w. w.0) same) ∙ h) in
                  (
                    u,
                    a,
                    e,
                    there,
                    owner,
                    subst
                        (λ (w : Flow Chat × Server).
                          IsRouted write (trim_space agent_query) conn s.runtime w.1.runtime task)
                        (sym same) routed,
                  )
            ]
          ]
    ]
