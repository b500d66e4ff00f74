-- ===== src/Api/Relay/Admitted.antt =====
-- internal/api/server.go: which runtimes are let in.
use shclop.Prelude.{
  ◌≡◌, ap, ◌∙◌, inl, inr, ℕ, String, Option, some, arith, eq_iff, Option-cases, Bool-cases,
}
use shclop.Prelude.Text.{trim_space, strip_prefix}
use shclop.Prelude.Dict.{lookup, insert, lookup-insert}
use shclop.Store.Memory.{Call}
use shclop.Gateway.{Envelope, RuntimeRegistry, register, fail_waiters, failed_waiters, is_other}
use shclop.Api.Server.{Server, go, valid_runtime_token, record_activity}
use shclop.Api.Relay.{hello_accepted, handle_runtime_web_socket}

fail_waiters-runtimes :
    (agent_id reason : String) (r : RuntimeRegistry) {r' : RuntimeRegistry}
    → fail_waiters agent_id reason r ≡ some r'
    → r'.runtimes ≡ r.runtimes
unfolding fail_waiters
fail_waiters-runtimes agent_id reason r {r'} h =
    elim (Option-cases (failed_waiters agent_id reason r.waiters)) [
      | inl waits ↦ absurd (ground (arith, waits, h))
      | inr (w, failed) ↦ ground (arith, failed, h)
    ]

register_current :
    (agent_id : String) (conn : ℕ) (r : RuntimeRegistry) {r' : RuntimeRegistry}
    → register agent_id conn r ≡ some r'
    → lookup agent_id r'.runtimes ≡ some conn
unfolding register
register_current agent_id conn r {r'} h =
    let r1 : RuntimeRegistry = record r { runtimes = insert agent_id conn r.runtimes } in
    let new : lookup agent_id r1.runtimes ≡ some conn =
      ground (arith, lookup-insert agent_id agent_id conn r.runtimes, eq_iff agent_id agent_id) in
    elim (Bool-cases (is_other conn (lookup agent_id r.runtimes))) [
      | inr same ↦ ground (arith, same, h, new)
      | inl other ↦
          ap (lookup agent_id) (
            fail_waiters-runtimes agent_id "runtime connection replaced" r1 {r' = r'}
              (ground (arith, other, h)))
          ∙ new
    ]

-- A runtime is let in only with the secret that the server has for the agent of its hello, which is not empty; and its
-- connection is then the current one of this agent.
pub handle_runtime_web_socket_sound :
    (at : ℕ → Call) (authorization : String) (conn : ℕ) (remote_addr : String)
    (message : Option Envelope) (s : Server)
    → (handle_runtime_web_socket at authorization conn remote_addr message s).0 ≡ go hello_accepted
    → (hello : Envelope) × (rest : String) × (message ≡ some hello)
      × (strip_prefix "Bearer " authorization ≡ some rest)
      × (lookup hello.agent_id s.tokens ≡ some (trim_space rest))
      × ¬ (trim_space rest ≡ "")
      × (lookup hello.agent_id
            (handle_runtime_web_socket at authorization conn remote_addr message
              s).1.runtime.runtimes
          ≡ some conn)
unfolding handle_runtime_web_socket valid_runtime_token record_activity
handle_runtime_web_socket_sound at authorization conn remote_addr message s h =
    elim (Option-cases (strip_prefix "Bearer " authorization)) [
      | inl none_given ↦ absurd (ground (arith, none_given, h))
      | inr (rest, given) ↦ elim (Option-cases message) [
        | inl unread ↦ absurd (ground (arith, given, unread, h))
        | inr (hello, read) ↦ elim (Option-cases (register hello.agent_id conn s.runtime)) [
          | inl waits ↦ absurd (ground (arith, given, read, waits, h))
          | inr (runtime, entered) ↦ elim (Option-cases (lookup hello.agent_id s.tokens)) [
            | inl unknown ↦ absurd (ground (arith, given, read, entered, unknown, h))
            | inr (secret, known) ↦ (
              hello,
              rest,
              read,
              given,
              ground (arith, given, read, entered, known, h, eq_iff secret (trim_space rest)),
              (λ e. ground (arith, given, h, e, eq_iff (trim_space rest) "")),
              ground (
                arith,
                given,
                read,
                entered,
                known,
                h,
                register_current hello.agent_id conn s.runtime entered,
              ),
            )
          ]
        ]
      ]
    ]
