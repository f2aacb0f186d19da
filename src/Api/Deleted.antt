-- ===== src/Api/Deleted.antt =====
-- A session that is deleted while it is being started.
use kvm_switcher.Api.Starting.{
  targeted, start_by_mode, ok, with_retries, registered, Board, start_session,
}
use kvm_switcher.Prelude.{
  ap, ◌∙◌, string_eq, insert, subst, ◌==◌, eq_iff, lookup-insert, arith, ◌≡◌, ℕ, Option, String,
  true, false, none, some,
}
use kvm_switcher.Api.Views.{
  log_audit-Same, stop_all-Same, drop_creds-Same, Same-trans, save-Saved, Saved-Same, Saved,
}
use kvm_switcher.Api.{save, log_audit, AuditEntry, KvmConnectInfo, BmcCredentials, ApiServer}
use kvm_switcher.Session.{
  connected, web_socket, disconnected, SessionStatus, KvmSession, SessionStore,
}
use kvm_switcher.Api.Limits.Calls.{some_inj}
use kvm_switcher.Api.Sessions.{email_of, stop_all, drop_creds, Request, delete_session}
use kvm_switcher.Config.Env.{get_password}
use kvm_switcher.Models.{ServerConfig}

module _ (st : SessionStore) where
  deleted-Saved :
      (req : Request) (id : String) (a b : ApiServer st) (s : KvmSession)
      → st.get id a.sessions ≡ some s
      → delete_session st req id a ≡ some b
      → Saved st a b (record s { status = disconnected })
  unfolding delete_session
  deleted-Saved req id a b s h e =
      let t : KvmSession = record s { status = disconnected } in
      let c : ApiServer st = drop_creds st id s.server_name a in
      let d : ApiServer st = stop_all st id c in
      let x : AuditEntry = record {
        event_type = "session_delete";
        user_email = email_of req.user;
        server_name = s.server_name;
        session_id = id;
        remote_addr = req.ip;
      } in
      subst (λ y. Saved st a y t) (some_inj (log_audit st x (save st t d)) b (ground (arith, h, e)))
        (Saved-Same st a d (save st t d) (log_audit st x (save st t d)) t
          (Same-trans st a c d (drop_creds-Same st id s.server_name a) (stop_all-Same st id c))
          (save-Saved st t d) (log_audit-Same st x (save st t d)))

  get-Saved :
      (id : String) (a b : ApiServer st) (t : KvmSession)
      → Saved st a b t
      → t.id ≡ id
      → st.get id b.sessions ≡ some t
  get-Saved id a b t v e = ground (
    arith,
    st.get_lem id b.sessions,
    v.view,
    lookup-insert t.id id t (st.view a.sessions),
    eq_iff t.id id,
    e,
  )

  -- What the store says of a session's status.
  abbrev pub status_of : String → ApiServer st → Option SessionStatus
  status_of id a = elim (st.get id a.sessions) [ none ↦ none | some s ↦ some s.status ]

  status_of-Saved :
      (id : String) (a b : ApiServer st) (t : KvmSession)
      → Saved st a b t
      → t.id ≡ id
      → status_of id b ≡ some t.status
  status_of-Saved id a b t v e = ground (arith, get-Saved id a b t v e)

  connects :
      (env : String → String) (board : Board) (now : ℕ) (s : KvmSession) (cfg : ServerConfig)
      (a : ApiServer st) (password : String) (c : BmcCredentials) (i : KvmConnectInfo)
      → get_password env cfg ≡ some password
      → registered cfg.board_type ≡ true
      → (cfg.board_type == "ami_megarac") ≡ false
      → with_retries (board.authenticate cfg password) ≡ ok (c, some i)
      → start_session st env board now s cfg a
        ≡ some (
            start_by_mode st now
              (record s { conn_mode = i.mode })
              i
              (record a {
                bmc_creds = insert s.id (record { creds = c; created_at = now }) a.bmc_creds;
              })
              i.mode)
  unfolding start_session
  connects env board now s cfg a password c i p r m w = ground (arith, p, r, m, w)

  -- When a session on a board that is no MegaRAC is deleted before its start has ended, and the board
  -- then lets the program in with a WebSocket console, the session is disconnected after the deletion
  -- and connected again after the start.
  pub start_session-delete_session :
      (env : String → String) (board : Board) (now : ℕ) (cfg : ServerConfig) (req : Request)
      (id : String) (a b : ApiServer st) (s : KvmSession) (password : String) (c : BmcCredentials)
      (i : KvmConnectInfo)
      → st.get id a.sessions ≡ some s
      → s.id ≡ id
      → delete_session st req id a ≡ some b
      → get_password env cfg ≡ some password
      → registered cfg.board_type ≡ true
      → (cfg.board_type == "ami_megarac") ≡ false
      → with_retries (board.authenticate cfg password) ≡ ok (c, some i)
      → i.mode ≡ web_socket
      → (status_of id b ≡ some disconnected)
        × ((d : ApiServer st) × ((start_session st env board now
                  (record s { status = disconnected })
                  cfg
                  b
                ≡ some d)
              × (status_of id d ≡ some connected)))
  start_session-delete_session env board now cfg req id a b s password c i h n e p r m w mode =
      let u : KvmSession = record s { status = disconnected } in
      let u' : KvmSession = record u { conn_mode = i.mode } in
      let b' : ApiServer st = record b {
        bmc_creds = insert s.id (record { creds = c; created_at = now }) b.bmc_creds;
      } in
      let t : KvmSession = record u {
        conn_mode = i.mode;
        kvm_target = i.target_url;
        status = connected;
        last_activity = now;
      } in
      let v : Saved st b' (save st t b') t = save-Saved st t b' in
      (
        status_of-Saved id a b u (deleted-Saved req id a b s h e) n,
        (
          save st t b',
          (
            connects env board now u cfg b password c i p r m w
                ∙ ap (λ x. some (start_by_mode st now u' i b' x)) mode
                ∙ ap
                    (λ x. some (
                      save st (record (targeted i x u') { status = connected; last_activity = now })
                        b'))
                    mode,
            status_of-Saved id b' (save st t b') t v n,
          ),
        ),
      )
