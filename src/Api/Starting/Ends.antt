-- ===== src/Api/Starting/Ends.antt =====
-- What `startSession` makes of a session.
use kvm_switcher.Api.Starting.Ended.{
  start_by_mode-Ended, SavesEnded, fail-Ended, start_shared-Ended,
}
use kvm_switcher.Prelude.{
  false, true, ◌+◌, ◌==◌, if◌then◌else◌, ◌∙◌, ℕ, ◌≡◌, ◌≢◌, refl, String, none, string_eq, Option,
  some, insert, Bool,
}
use kvm_switcher.Api.Starting.{
  registered, retry, Reply, ok, fails, Board, fail, start_by_mode, start_shared, start_session,
  start_on, with_retries, on_login, get_password,
}
use kvm_switcher.Api.{ApiServer, BmcCredentials, KvmConnectInfo}
use kvm_switcher.Api.Starting.Retries.{with_retries-StopsAt, StopsAt}
use Prim.Native.String.{◌++◌}
use kvm_switcher.Models.{ServerConfig}
use kvm_switcher.Session.{KvmSession, SessionStore}

-- No board logs in without saying how to connect.
abbrev pub IsTelling : Board → Type 0
IsTelling board =
    (cfg : ServerConfig) (password : String) (n : ℕ) (c : BmcCredentials)
    → board.authenticate cfg password n ≢ ok (c, none)

module _ (st : SessionStore) where
  -- The start comes to its end, with the session saved as `Ended` says.
  abbrev pub Finishes : KvmSession → ApiServer st → Option (ApiServer st) → Type 0
  Finishes s a o = (b : ApiServer st) × (o ≡ some b) × SavesEnded st s a b

  on_login-Finishes :
      (now : ℕ) (s : KvmSession) (a : ApiServer st)
      (r : Reply (BmcCredentials × Option KvmConnectInfo))
      → ((c : BmcCredentials) → r ≢ ok (c, none))
      → Finishes s a (on_login st now s a r)
  on_login-Finishes now s a (fails e) h =
      (fail st s "BMC authentication failed" a, refl, fail-Ended st s "BMC authentication failed" a)
  on_login-Finishes now s a (ok (c, none)) h = absurd (h c refl)
  on_login-Finishes now s a (ok (c, some i)) h =
      let s' : KvmSession = record s { conn_mode = i.mode } in
      let a' : ApiServer st = record a {
        bmc_creds = insert s.id (record { creds = c; created_at = now }) a.bmc_creds;
      } in
      let (t, v, e) = start_by_mode-Ended st now s' i a' i.mode refl in
      (
        start_by_mode st now s' i a' i.mode,
        refl,
        (
          t,
          record { view = v.view; config = v.config },
          record {
            id = e.id;
            server_name = e.server_name;
            created_at = e.created_at;
            status = e.status;
          },
        ),
      )

  start_on-Finishes :
      (board : Board) (now : ℕ) (s : KvmSession) (cfg : ServerConfig) (password : String)
      (a : ApiServer st)
      → IsTelling board
      → Finishes s a (start_on st board now s cfg password a)
  start_on-Finishes board now s cfg password a h =
      go (registered cfg.board_type) (cfg.board_type == "ami_megarac")
    where
      ask : ℕ → Reply (BmcCredentials × Option KvmConnectInfo)
      ask = board.authenticate cfg password

      shared : ApiServer st
      shared = start_shared st board now s cfg password a

      own : Finishes s a (on_login st now s a (with_retries ask))
      own = on_login-Finishes now s a (with_retries ask) (λ c e.
          let r : StopsAt ask 1 2 (with_retries ask) (retry ask 1 2).1 =
            (with_retries-StopsAt ask).0 in
          h cfg password (r.last + 1) c (r.from ∙ e))

      go :
          (known megarac : Bool)
          → Finishes s a (
              if known
              then (if megarac then some shared else on_login st now s a (with_retries ask))
              else some (fail st s ("unsupported board type: " ++ cfg.board_type) a))
      go true true = (shared, refl, start_shared-Ended st board now s cfg password a)
      go true false = own
      go false m = (
        fail st s ("unsupported board type: " ++ cfg.board_type) a,
        refl,
        fail-Ended st s ("unsupported board type: " ++ cfg.board_type) a,
      )

  -- As long as no board logs in without saying how to connect, the start of a session comes to its end
  -- whatever the boards answer: it sets the session once, under its own name and server, and the
  -- session is then connected in a mode that a viewer can use, or has failed.
  pub start_session-Finishes :
      (env : String → String) (board : Board) (now : ℕ) (s : KvmSession) (cfg : ServerConfig)
      (a : ApiServer st)
      → IsTelling board
      → Finishes s a (start_session st env board now s cfg a)
  unfolding start_session
  start_session-Finishes env board now s cfg a h = go (get_password env cfg)
    where
      go :
          (o : Option String)
          → Finishes s a (elim o [
            | none ↦ some (fail st s "BMC password not configured" a)
            | some password ↦ start_on st board now s cfg password a
          ])
      go none = (
        fail st s "BMC password not configured" a,
        refl,
        fail-Ended st s "BMC password not configured" a,
      )
      go (some password) = start_on-Finishes board now s cfg password a h
