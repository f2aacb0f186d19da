-- ===== src/Oidc/Login.antt =====
-- Logging in and out, and what the middleware admits afterwards.
use kvm_switcher.Prelude.{
  ℕ, ◌≡◌, ◌≢◌, ◌⊎◌, String, Option, none, some, ◌==◌, string_eq, lookup, erase, lookup-insert,
  lookup-erase, eq_iff, arith, Option-cases, Bool-cases, inl, inr, if◌then◌else◌, not, ◌&&◌,
}
use kvm_switcher.Models.{OidcConfig, UserInfo}
use kvm_switcher.Oidc.{
  Provider, UserSession, Request, Answers, fails, redirects, unauthorized, admits, Token, Claims,
  cookie_value, new_session, user_of, start_session, check_token, handle_callback, handle_logout,
  handle_me, middleware,
}

-- The session `id` is the one that the provider's answers to the request call for: the code was
-- exchanged for a token whose ID token is verified and has readable claims.
pub data Verified (ans : Answers) (req : Request) (cfg : OidcConfig) (id : String) (s : UserSession)
    : Type 0 where
  verified :
      (token : Token) (raw : String) (claims : Claims)
      → ans.random ≡ some id
      → ans.exchange req.code ≡ some token
      → token.id_token ≡ some raw
      → ans.verify raw ≡ some (some claims)
      → s ≡ new_session id (user_of cfg claims) raw token
      → Verified ans req cfg id s

-- The sessions after the login under `id`, key by key.
abbrev pub after_login : String → UserSession → Request → Provider → String → Option UserSession
after_login id s req p k =
    if id == k
    then some s
    else if not (cookie_value req.session_cookie == "") && (cookie_value req.session_cookie == k)
    then none
    else lookup k p.sessions

abbrev pub Opens : Answers → Request → Provider → Provider → String → Type 0
Opens ans req p q id =
    (s : UserSession) × Verified ans req p.config id s
    × ((k : String) → lookup k q.sessions ≡ after_login id s req p k)

start_session-Opens :
    (ans : Answers) (req : Request) (raw : String) (token : Token) (claims : Claims)
    (p q : Provider) (id : String)
    → ans.exchange req.code ≡ some token
    → token.id_token ≡ some raw
    → ans.verify raw ≡ some (some claims)
    → start_session ans req (user_of p.config claims) raw token p ≡ (q, redirects id)
    → Opens ans req p q id
unfolding start_session
start_session-Opens ans req raw token claims p q id x t v h = elim (Option-cases ans.random) [
  | inl e ↦ absurd (ground arith)
  | inr (new, e) ↦
      let s : UserSession = new_session new (user_of p.config claims) raw token in
      let same : new ≡ id = ground arith in
      let old : String = cookie_value req.session_cookie in
      (
        s,
        verified token raw claims (ground arith) x t v (ground arith),
        λ k. ground (
          arith,
          lookup-insert new k s p.sessions,
          lookup-insert new k s (erase old p.sessions),
          lookup-erase old k p.sessions,
        ),
      )
]

check_token-Opens :
    (ans : Answers) (req : Request) (token : Token) (p q : Provider) (id : String)
    → ans.exchange req.code ≡ some token
    → check_token ans req token p ≡ (q, redirects id)
    → Opens ans req p q id
unfolding check_token
check_token-Opens ans req token p q id x h = elim (Option-cases token.id_token) [
  | inl e ↦ absurd (ground arith)
  | inr (raw, e) ↦ elim (Option-cases (ans.verify raw)) [
    | inl e' ↦ absurd (ground arith)
    | inr (none, e') ↦ absurd (ground arith)
    | inr (some claims, e') ↦
        start_session-Opens ans req raw token claims p q id x e e' (ground arith)
  ]
]

-- A callback that logs in under a session name `id` had a state cookie that is not empty and equals
-- the state in the query, and verified answers of the provider; it creates the one session that they
-- call for, removes the session that the browser had before, and changes no other.
pub handle_callback-Opens :
    (ans : Answers) (req : Request) (p q : Provider) (id : String)
    → handle_callback ans req p ≡ (q, redirects id)
    → (cookie_value req.state_cookie ≢ "")
      × (req.query_state ≡ cookie_value req.state_cookie)
      × Opens ans req p q id
unfolding handle_callback
handle_callback-Opens ans req p q id h = elim (Bool-cases (cookie_value req.state_cookie == "")) [
  | inl e ↦ absurd (ground arith)
  | inr e ↦ elim (Bool-cases (req.query_state == cookie_value req.state_cookie)) [
    | inr e' ↦ absurd (ground arith)
    | inl e' ↦ elim (Option-cases (ans.exchange req.code)) [
      | inl e'' ↦ absurd (ground arith)
      | inr (token, e'') ↦ (
        ground (arith, eq_iff (cookie_value req.state_cookie) ""),
        ground (arith, eq_iff req.query_state (cookie_value req.state_cookie)),
        check_token-Opens ans req token p q id e'' (ground arith),
      )
    ]
  ]
]

-- A request with the new session's cookie is admitted as the user of the verified claims; one with
-- the cookie that the browser had before is turned away.
pub middleware-handle_callback :
    (ans : Answers) (req : Request) (p q : Provider) (id old : String)
    → handle_callback ans req p ≡ (q, redirects id)
    → id ≢ ""
    → req.session_cookie ≡ some old
    → old ≢ ""
    → old ≢ id
    → ((s : UserSession) × Verified ans req p.config id s
        × (middleware (some id) q ≡ admits s.user))
      × (middleware (some old) q ≡ unauthorized "session expired")
unfolding middleware
middleware-handle_callback ans req p q id old h n c m d =
    let (_, _, (s, v, after)) = handle_callback-Opens ans req p q id h in
    (
      (s, v, ground (arith, after id, eq_iff id id, eq_iff id "")),
      ground (arith, after old, eq_iff id old, eq_iff old "", eq_iff old old),
    )

start_session-fails :
    (ans : Answers) (req : Request) (user : UserInfo) (raw : String) (token : Token) (p : Provider)
    (code : ℕ) (message k : String)
    → (start_session ans req user raw token p).1 ≡ fails code message
    → (lookup k (start_session ans req user raw token p).0.sessions ≡ lookup k p.sessions)
      ⊎ (lookup k (start_session ans req user raw token p).0.sessions ≡ none)
unfolding start_session
start_session-fails ans req user raw token p code message k h =
    ground
      (arith, Option-cases ans.random, lookup-erase (cookie_value req.session_cookie) k p.sessions)

check_token-fails :
    (ans : Answers) (req : Request) (token : Token) (p : Provider) (code : ℕ) (message k : String)
    → (check_token ans req token p).1 ≡ fails code message
    → (lookup k (check_token ans req token p).0.sessions ≡ lookup k p.sessions)
      ⊎ (lookup k (check_token ans req token p).0.sessions ≡ none)
unfolding check_token
check_token-fails ans req token p code message k h = elim (Option-cases token.id_token) [
  | inl e ↦ ground arith
  | inr (raw, e) ↦ elim (Option-cases (ans.verify raw)) [
    | inl e' ↦ ground arith
    | inr (none, e') ↦ ground arith
    | inr (some claims, e') ↦
        ground
          (arith, start_session-fails ans req (user_of p.config claims) raw token p code message k)
  ]
]

-- A callback that fails, wherever it does, leaves no session that was not there before: every session
-- is as it was, or gone.
pub handle_callback-fails :
    (ans : Answers) (req : Request) (p : Provider) (code : ℕ) (message k : String)
    → (handle_callback ans req p).1 ≡ fails code message
    → (lookup k (handle_callback ans req p).0.sessions ≡ lookup k p.sessions)
      ⊎ (lookup k (handle_callback ans req p).0.sessions ≡ none)
unfolding handle_callback
handle_callback-fails ans req p code message k h = elim (Option-cases (ans.exchange req.code)) [
  | inl e ↦ ground arith
  | inr (token, e) ↦ ground (arith, check_token-fails ans req token p code message k)
]

-- After a logout the browser's cookie is turned away, whatever it was, and every other cookie gets
-- the answer that it got before.
pub middleware-handle_logout :
    (req : Request) (p : Provider) (c k : String)
    → req.session_cookie ≡ some c
    → c ≢ ""
    → c ≢ k
    → (middleware (some c) (handle_logout req p) ≡ unauthorized "session expired")
      × (handle_me (some c) (handle_logout req p) ≡ none)
      × (middleware (some k) (handle_logout req p) ≡ middleware (some k) p)
unfolding middleware handle_logout handle_me
middleware-handle_logout req p c k e n d = ground (
  arith,
  lookup-erase c c p.sessions,
  lookup-erase c k p.sessions,
  eq_iff c c,
  eq_iff c k,
  eq_iff c "",
)
