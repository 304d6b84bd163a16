-- ===== src/Client/Agreement.antt =====
-- pkg/taskpulse/client.go and internal/transport/http/handler.go: when the server lets a worker in.
use taskpulse.Prelude.{
  ◌≡◌, ◌↔◌, sym, ap, ◌∙◌, String, true, false, inl, inr, Option, none, some, text_append,
  trim_space, is_empty, lookup, strip_prefix, strip_prefix-append, Bool-cases,
}
use taskpulse.Client.{Client, Headers, or_else_text, worker_headers}
use taskpulse.Http.{Handler, Request, authorize_worker, with_worker_auth_token, bearer_prefix}
use taskpulse.Http.Authorization.{authorize_worker-IsBearer, IsBearer-authorize_worker}

abbrev value_or_empty : Option String → String
value_or_empty none = ""
value_or_empty (some v) = v

-- `Header.Get` of the headers that were set.
abbrev pub header_value : String → Headers → String
header_value name headers = value_or_empty (lookup name headers)

-- The token that the client sends.
abbrev pub token_of : Client → String
token_of c = or_else_text (trim_space c.worker_auth_token) (trim_space c.environment)

same_tokens :
    (given configured : String)
    → text_append bearer_prefix given ≡ text_append bearer_prefix configured
    → given ≡ configured
same_tokens given configured e = cc (
    sym (strip_prefix-append bearer_prefix given)
    ∙ ap (strip_prefix bearer_prefix) e
    ∙ strip_prefix-append bearer_prefix configured)

sent_header :
    (c : Client)
    → is_empty (token_of c) ≡ false
    → header_value "Authorization" (worker_headers c) ≡ text_append bearer_prefix (token_of c)
unfolding worker_headers lookup
sent_header c given = rw given

no_header :
    (c : Client)
    → is_empty (token_of c) ≡ true
    → header_value "Authorization" (worker_headers c) ≡ ""
unfolding worker_headers lookup
no_header c absent = rw absent

bearer_some : (configured : String) → (strip_prefix bearer_prefix "" ≡ some configured) → ⊥
unfolding strip_prefix
bearer_some configured e = cc

-- A server with a token lets in exactly the workers whose client is given that token, where both
-- drop the space around what is configured, and the client falls back on its environment.
pub client_agrees :
    (h : Handler) (raw : String) (c : Client) (r : Request)
    → is_empty (trim_space raw) ≡ false
    → r.header "Authorization" ≡ header_value "Authorization" (worker_headers c)
    → (authorize_worker (with_worker_auth_token raw h) r ≡ true) ↔ (token_of c ≡ trim_space raw)
unfolding with_worker_auth_token
client_agrees h raw c r configured carried = (let_in, known)
  where
    locked : Handler
    locked = record h { worker_auth_token = trim_space raw }

    let_in : authorize_worker locked r ≡ true → token_of c ≡ trim_space raw
    let_in allowed =
        let bearer = sym carried ∙ authorize_worker-IsBearer locked r configured allowed in
        elim (Bool-cases (is_empty (token_of c))) [
          | inr given ↦
              same_tokens (token_of c) (trim_space raw) (sym (sent_header c given) ∙ bearer)
          | inl absent ↦ absurd (
              bearer_some (trim_space raw) (
                ap (strip_prefix bearer_prefix) (sym (no_header c absent) ∙ bearer)
                ∙ strip_prefix-append bearer_prefix (trim_space raw)))
        ]

    known : token_of c ≡ trim_space raw → authorize_worker locked r ≡ true
    known e =
        IsBearer-authorize_worker locked r
          (carried ∙ sent_header c (ap is_empty e ∙ configured) ∙ ap (text_append bearer_prefix) e)
