-- ===== src/Api/Starting/Ended.antt =====
-- internal/api/handlers.go: how `startSession` saves a session at its end.
use kvm_switcher.Prelude.{
  false, true, ◌==◌, if◌then◌else◌, subst, sym, ℕ, ◌≡◌, ◌⊎◌, inl, inr, refl, String, none,
  string_eq, Option, some, Bool,
}
use kvm_switcher.Api.Starting.{
  Reply, ok, fails, Board, fail, fetch_token, start_by_mode, on_web_session, start_shared,
  start_direct_session, targeted, on_token, with_retries, keep_creds,
}
use kvm_switcher.Api.{proxy_of, ApiServer, BmcCredentials, KvmConnectInfo}
use Prim.Native.String.{◌++◌}
use kvm_switcher.Models.{ServerConfig}
use kvm_switcher.Session.{
  KvmMode, unset, unknown, KvmSession, SessionStatus, connected, web_socket, vnc, ikvm,
  SessionStore,
}
use kvm_switcher.Api.Views.{Saved, save-Saved}

-- The session is the same one, and it is connected in a mode that a viewer can use or it has failed.
pub record Ended (s t : KvmSession) : Type 0 where
  pub id : t.id ≡ s.id
  pub server_name : t.server_name ≡ s.server_name
  pub created_at : t.created_at ≡ s.created_at
  pub status :
      ((t.status ≡ connected)
        × ((t.conn_mode ≡ web_socket) ⊎ (t.conn_mode ≡ vnc) ⊎ (t.conn_mode ≡ ikvm)))
      ⊎ (t.status ≡ SessionStatus.error)

-- The target and the password are all that the mode decides.
record Retargeted (s t : KvmSession) : Type 0 where
  pub id : t.id ≡ s.id
  pub server_name : t.server_name ≡ s.server_name
  pub created_at : t.created_at ≡ s.created_at
  pub conn_mode : t.conn_mode ≡ s.conn_mode

targeted-Retargeted :
    (i : KvmConnectInfo) (m : KvmMode) (s : KvmSession) → Retargeted s (targeted i m s)
targeted-Retargeted i web_socket s = record {
  id = refl;
  server_name = refl;
  created_at = refl;
  conn_mode = refl;
}
targeted-Retargeted i vnc s = record {
  id = refl;
  server_name = refl;
  created_at = refl;
  conn_mode = refl;
}
targeted-Retargeted i ikvm s = record {
  id = refl;
  server_name = refl;
  created_at = refl;
  conn_mode = refl;
}
targeted-Retargeted i unset s = record {
  id = refl;
  server_name = refl;
  created_at = refl;
  conn_mode = refl;
}
targeted-Retargeted i (unknown t) s = record {
  id = refl;
  server_name = refl;
  created_at = refl;
  conn_mode = refl;
}

module _ (st : SessionStore) where
  abbrev pub SavesEnded : KvmSession → ApiServer st → ApiServer st → Type 0
  SavesEnded s a b = (t : KvmSession) × Saved st a b t × Ended s t

  pub fail-Ended :
      (s : KvmSession) (msg : String) (a : ApiServer st) → SavesEnded s a (fail st s msg a)
  fail-Ended s msg a =
      let t : KvmSession = record s { status = SessionStatus.error; error = msg } in
      (
        t,
        save-Saved st t a,
        record { id = refl; server_name = refl; created_at = refl; status = inr refl },
      )

  on_token-Ended :
      (now : ℕ) (s : KvmSession) (a : ApiServer st) (r : Reply KvmConnectInfo)
      → SavesEnded s a (on_token st now s a r)
  on_token-Ended now s a (fails e) = fail-Ended s "KVM token fetch failed" a
  on_token-Ended now s a (ok i) =
      let t : KvmSession = record s {
        conn_mode = ikvm;
        ikvm_args = i.ikvm_args;
        status = connected;
        last_activity = now;
      } in
      (
        t,
        save-Saved st t a,
        record {
          id = refl;
          server_name = refl;
          created_at = refl;
          status = inl (refl, inr (inr refl));
        },
      )

  on_web_session-Ended :
      (board : Board) (now : ℕ) (s : KvmSession) (cfg : ServerConfig) (a : ApiServer st)
      (r : Reply BmcCredentials)
      → SavesEnded s a (on_web_session st board now s cfg a r)
  on_web_session-Ended board now s cfg a (fails e) = fail-Ended s "BMC authentication failed" a
  on_web_session-Ended board now s cfg a (ok c) =
      let (t, v, e) =
        on_token-Ended now s (keep_creds st cfg.name c a) (board.fetch_kvm_token cfg c) in
      (t, record { view = v.view; config = v.config }, e)

  pub start_shared-Ended :
      (board : Board) (now : ℕ) (s : KvmSession) (cfg : ServerConfig) (password : String)
      (a : ApiServer st)
      → SavesEnded s a (start_shared st board now s cfg password a)
  unfolding start_shared
  start_shared-Ended board now s cfg password a = go (proxy_of cfg.name a.proxies).bmc_creds
    where
      fresh : ApiServer st
      fresh =
          on_web_session st board now s cfg a (with_retries (board.create_web_session cfg password))

      fresh-Ended : SavesEnded s a fresh
      fresh-Ended =
          on_web_session-Ended board now s cfg a
            (with_retries (board.create_web_session cfg password))

      reused :
          (c : BmcCredentials) (empty : Bool)
          → SavesEnded s a (if empty then fresh else fetch_token st board now s cfg c a)
      reused c true = fresh-Ended
      reused c false = on_token-Ended now s a (board.fetch_kvm_token cfg c)

      go :
          (o : Option BmcCredentials)
          → SavesEnded s a (elim o [
            | none ↦ fresh
            | some c ↦ if c.session_cookie == "" then fresh else fetch_token st board now s cfg c a
          ])
      go none = fresh-Ended
      go (some c) = reused c (c.session_cookie == "")

  start_direct_session-Ended :
      (now : ℕ) (s : KvmSession) (i : KvmConnectInfo) (a : ApiServer st)
      → (s.conn_mode ≡ web_socket) ⊎ (s.conn_mode ≡ vnc) ⊎ (s.conn_mode ≡ ikvm)
      → SavesEnded s a (start_direct_session st now s i a)
  start_direct_session-Ended now s i a h =
      let t : KvmSession = record (targeted i i.mode s) {
        status = connected;
        last_activity = now;
      } in
      let r : Retargeted s (targeted i i.mode s) = targeted-Retargeted i i.mode s in
      (
        t,
        save-Saved st t a,
        record {
          id = r.id;
          server_name = r.server_name;
          created_at = r.created_at;
          status =
              inl
                (refl, subst (λ m. (m ≡ web_socket) ⊎ (m ≡ vnc) ⊎ (m ≡ ikvm)) (sym r.conn_mode) h);
        },
      )

  pub start_by_mode-Ended :
      (now : ℕ) (s : KvmSession) (i : KvmConnectInfo) (a : ApiServer st) (m : KvmMode)
      → s.conn_mode ≡ m
      → SavesEnded s a (start_by_mode st now s i a m)
  start_by_mode-Ended now s i a web_socket h = start_direct_session-Ended now s i a (inl h)
  start_by_mode-Ended now s i a vnc h = start_direct_session-Ended now s i a (inr (inl h))
  start_by_mode-Ended now s i a ikvm h =
      let t : KvmSession = record s {
        ikvm_args = i.ikvm_args;
        status = connected;
        last_activity = now;
      } in
      (
        t,
        save-Saved st t a,
        record {
          id = refl;
          server_name = refl;
          created_at = refl;
          status = inl (refl, inr (inr h));
        },
      )
  start_by_mode-Ended now s i a unset h = fail-Ended s "unknown KVM mode: " a
  start_by_mode-Ended now s i a (unknown m) h = fail-Ended s ("unknown KVM mode: " ++ m) a
