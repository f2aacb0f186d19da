-- ===== src/Api/Starting.antt =====
-- internal/api/handlers.go: `startSession`, which runs beside the handlers, and what it calls.
-- What a board answers is an argument, one reply for each attempt; so is the environment. A board that
-- is registered as ami_megarac is the MegaRAC authenticator (internal/auth/megarac.go), so the test of
-- its type does not fail.
pub mod Retries
pub mod Ended
pub mod Ends
use Prim.Native.String.{◌++◌}
use kvm_switcher.Prelude.{
  ℕ, zero, suc, ◌+◌, String, code, Bool, true, false, Option, none, some, List, [], ◌∷◌, ◌==◌,
  string_eq, nat_eq, ◌||◌, ◌&&◌, insert, contains, leb, if◌then◌else◌,
}
use kvm_switcher.Models.{ServerConfig}
use kvm_switcher.Session.{
  KvmSession, SessionStatus, connected, KvmMode, unset, web_socket, vnc, ikvm, unknown,
  SessionStore,
}
use kvm_switcher.Config.Env.{get_password}
use kvm_switcher.Api.{ApiServer, BmcCredentials, KvmConnectInfo, proxy_of, save}

-- A result, or the text of an error.
pub data Reply (A : Type 0) : Type 0 where
  ok : A → Reply A
  fails : String → Reply A

-- `connect` gives no connection arguments where Go has the nil pointer.
pub record Board : Type 0 where
  pub authenticate : ServerConfig → String → ℕ → Reply (BmcCredentials × Option KvmConnectInfo)
  pub create_web_session : ServerConfig → String → ℕ → Reply BmcCredentials
  pub fetch_kvm_token : ServerConfig → BmcCredentials → Reply KvmConnectInfo

abbrev pub registered : String → Bool
registered board =
    contains board ("ami_megarac" ∷ "dell_idrac9" ∷ "dell_idrac8" ∷ "apc_ups" ∷ "nanokvm" ∷ [])

-- `strings.ToLower` on the characters that become a letter of the texts below: the Latin capitals and
-- the dotted capital I.
abbrev lower : ℕ → ℕ
lower c = if leb 65 c && leb c 90 then c + 32 else if c == 304 then 105 else c

-- Whether the second text begins with the first one, which is in lower case.
unfoldable pub begins : String → String → Bool
begins String.[] s = true
begins (String.◌∷◌ c p) String.[] = false
begins (String.◌∷◌ c p) (String.◌∷◌ d s) = code c == lower (code d) && begins p s

unfoldable pub mentions : String → String → Bool
mentions p String.[] = begins p String.[]
mentions p (String.◌∷◌ c s) = begins p (String.◌∷◌ c s) || mentions p s

unfoldable pub any_mentioned : List String → String → Bool
any_mentioned [] msg = false
any_mentioned (p ∷ ps) msg = mentions p msg || any_mentioned ps msg

abbrev transient_indicators : List String
transient_indicators =
    "connection refused" ∷ "timeout" ∷ "deadline exceeded" ∷ "503" ∷ "502" ∷ "504"
    ∷ "connection reset" ∷ "no such host" ∷ "temporary failure" ∷ "i/o timeout" ∷ []

unfoldable pub is_transient_error : String → Bool
is_transient_error msg = any_mentioned transient_indicators msg

abbrev pub bmc_retry_attempts : ℕ
bmc_retry_attempts = 3

-- An attempt's reply, and what comes of the loop if it goes on.
abbrev pub retry_on : {A : Type 0} → Reply A → Reply A × ℕ → Reply A × ℕ
retry_on (ok a) rest = (ok a, 1)
retry_on (fails e) rest = if is_transient_error e then (rest.0, suc rest.1) else (fails e, 1)

-- The loop from `attempt` on, of which at most `left` attempts remain after it: its reply, and how
-- many attempts were made in it. An error of the time limit between two attempts is replaced by
-- the next attempt's.
unfoldable pub retry : {A : Type 0} → (ℕ → Reply A) → ℕ → ℕ → Reply A × ℕ
retry ask attempt zero = (ask attempt, 1)
retry ask attempt (suc left) = retry_on (ask attempt) (retry ask (suc attempt) left)

unfoldable pub with_retries : {A : Type 0} → (ℕ → Reply A) → Reply A
with_retries ask = let (reply, made) = retry ask 1 2 in reply

-- Where the viewer's connection goes to.
abbrev pub targeted : KvmConnectInfo → KvmMode → KvmSession → KvmSession
targeted i web_socket s = record s { kvm_target = i.target_url }
targeted i vnc s = record s { kvm_target = i.target_addr; kvm_password = i.vnc_password }
targeted i ikvm s = s
targeted i unset s = s
targeted i (unknown t) s = s

module _ (st : SessionStore) where
  abbrev fail : KvmSession → String → ApiServer st → ApiServer st
  fail s msg a = save st (record s { status = SessionStatus.error; error = msg }) a

  abbrev pub start_ikvm_session : ℕ → KvmSession → ApiServer st → ApiServer st
  start_ikvm_session now s a = save st (record s { status = connected; last_activity = now }) a

  abbrev pub start_direct_session : ℕ → KvmSession → KvmConnectInfo → ApiServer st → ApiServer st
  start_direct_session now s i a =
      save st (record (targeted i i.mode s) { status = connected; last_activity = now }) a

  -- After the KVM token was asked for.
  abbrev pub on_token : ℕ → KvmSession → ApiServer st → Reply KvmConnectInfo → ApiServer st
  on_token now s a (fails e) = fail s "KVM token fetch failed" a
  on_token now s a (ok i) =
      start_ikvm_session now (record s { conn_mode = ikvm; ikvm_args = i.ikvm_args }) a

  abbrev pub keep_creds : String → BmcCredentials → ApiServer st → ApiServer st
  keep_creds name creds a = record a {
    proxies = insert name (record (proxy_of name a.proxies) { bmc_creds = some creds }) a.proxies;
  }

  abbrev pub fetch_token :
      Board → ℕ → KvmSession → ServerConfig → BmcCredentials → ApiServer st → ApiServer st
  fetch_token board now s cfg creds a = on_token now s a (board.fetch_kvm_token cfg creds)

  -- After a new web session was asked for.
  abbrev pub on_web_session :
      Board → ℕ → KvmSession → ServerConfig → ApiServer st → Reply BmcCredentials → ApiServer st
  on_web_session board now s cfg a (fails e) = fail s "BMC authentication failed" a
  on_web_session board now s cfg a (ok c) = fetch_token board now s cfg c (keep_creds cfg.name c a)

  -- The MegaRAC boards share the web session of their proxy; an empty cookie is no session.
  unfoldable pub start_shared :
      Board → ℕ → KvmSession → ServerConfig → String → ApiServer st → ApiServer st
  start_shared board now s cfg password a =
      let fresh : ApiServer st =
        on_web_session board now s cfg a (with_retries (board.create_web_session cfg password)) in
      elim (proxy_of cfg.name a.proxies).bmc_creds [
        | none ↦ fresh
        | some creds ↦
            if creds.session_cookie == "" then fresh else fetch_token board now s cfg creds a
      ]

  -- The switch on the mode.
  abbrev pub start_by_mode : ℕ → KvmSession → KvmConnectInfo → ApiServer st → KvmMode → ApiServer st
  start_by_mode now s i a web_socket = start_direct_session now s i a
  start_by_mode now s i a vnc = start_direct_session now s i a
  start_by_mode now s i a ikvm = start_ikvm_session now (record s { ikvm_args = i.ikvm_args }) a
  start_by_mode now s i a unset = fail s "unknown KVM mode: " a
  start_by_mode now s i a (unknown t) = fail s ("unknown KVM mode: " ++ t) a

  -- After the login. `none` is the panic of a nil dereference, which ends the program.
  abbrev pub on_login :
      ℕ
      → KvmSession
      → ApiServer st
      → Reply (BmcCredentials × Option KvmConnectInfo)
      → Option (ApiServer st)
  on_login now s a (fails e) = some (fail s "BMC authentication failed" a)
  on_login now s a (ok (creds, none)) = none
  on_login now s a (ok (creds, some i)) = some (
      start_by_mode now (record s { conn_mode = i.mode }) i
        (record a {
          bmc_creds = insert s.id (record { creds = creds; created_at = now }) a.bmc_creds;
        })
        i.mode)

  abbrev pub start_on :
      Board → ℕ → KvmSession → ServerConfig → String → ApiServer st → Option (ApiServer st)
  start_on board now s cfg password a =
      if registered cfg.board_type
      then (if cfg.board_type == "ami_megarac"
          then some (start_shared board now s cfg password a)
          else on_login now s a (with_retries (board.authenticate cfg password)))
      else some (fail s ("unsupported board type: " ++ cfg.board_type) a)

  unfoldable pub start_session :
      (String → String)
      → Board
      → ℕ
      → KvmSession
      → ServerConfig
      → ApiServer st
      → Option (ApiServer st)
  start_session env board now s cfg a = elim (get_password env cfg) [
    | none ↦ some (fail s "BMC password not configured" a)
    | some password ↦ start_on board now s cfg password a
  ]
