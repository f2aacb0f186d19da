-- ===== src/Api/Views.antt =====
-- What the handlers leave of the sessions and of the configuration.
use kvm_switcher.Prelude.{
  ◌≡◌, refl, ◌∙◌, ap, String, lookup, insert, erase, arith, Option-cases, inl, inr,
}
use kvm_switcher.Session.{KvmSession, SessionStore}
use kvm_switcher.Api.{
  ApiServer, AuditEntry, BmcCredentials, log_audit, save, find_server, clear_active,
  stop_ikvm_bridge, stop_vnc_bridge, stop_wss_proxy,
}
use kvm_switcher.Api.Sessions.{logout, drop_creds, stop_all}

module _ (st : SessionStore) where
  pub record Same (a b : ApiServer st) : Type 0 where
    pub sessions : b.sessions ≡ a.sessions
    pub config : b.config ≡ a.config

  pub Same-refl : (a : ApiServer st) → Same a a
  Same-refl a = record { sessions = refl; config = refl }

  pub Same-trans : (a b c : ApiServer st) → Same a b → Same b c → Same a c
  Same-trans a b c p q = record { sessions = q.sessions ∙ p.sessions; config = q.config ∙ p.config }

  pub log_audit-Same : (e : AuditEntry) (a : ApiServer st) → Same a (log_audit st e a)
  unfolding log_audit
  log_audit-Same e a = elim (Option-cases a.audited) [
    | inl h ↦ record { sessions = ground arith; config = ground arith }
    | inr (es, h) ↦ record { sessions = ground arith; config = ground arith }
  ]

  pub clear_active-Same : (id : String) (a : ApiServer st) → Same a (clear_active st id a)
  unfolding clear_active
  clear_active-Same id a = elim (Option-cases (st.get id a.sessions)) [
    | inl h ↦ record { sessions = ground arith; config = ground arith }
    | inr (s, h) ↦ elim (Option-cases (find_server s.server_name a.config.servers)) [
      | inl g ↦ record { sessions = ground arith; config = ground arith }
      | inr (cfg, g) ↦ record { sessions = ground arith; config = ground arith }
    ]
  ]

  pub stop_ikvm_bridge-Same : (id : String) (a : ApiServer st) → Same a (stop_ikvm_bridge st id a)
  unfolding stop_ikvm_bridge erase
  stop_ikvm_bridge-Same id a =
      let b : ApiServer st = record a { bridges = erase id a.bridges } in
      let c : Same b (clear_active st id b) = clear_active-Same id b in
      elim (Option-cases (lookup id a.bridges)) [
        | inl h ↦ record { sessions = ground arith; config = ground arith }
        | inr (s, h) ↦ record {
          sessions = ground (arith, c.sessions);
          config = ground (arith, c.config);
        }
      ]

  pub stop_all-Same : (id : String) (a : ApiServer st) → Same a (stop_all st id a)
  unfolding stop_all stop_vnc_bridge stop_wss_proxy
  stop_all-Same id a =
      let c : Same a (stop_ikvm_bridge st id a) = stop_ikvm_bridge-Same id a in
      record { sessions = c.sessions; config = c.config }

  pub logout-Same :
      (name : String) (c : BmcCredentials) (a : ApiServer st) → Same a (logout st name c a)
  unfolding logout
  logout-Same name c a = elim (Option-cases (find_server name a.config.servers)) [
    | inl h ↦ record { sessions = ground arith; config = ground arith }
    | inr (cfg, h) ↦ record { sessions = ground arith; config = ground arith }
  ]

  pub drop_creds-Same : (id name : String) (a : ApiServer st) → Same a (drop_creds st id name a)
  unfolding drop_creds
  drop_creds-Same id name a = elim (Option-cases (lookup id a.bmc_creds)) [
    | inl h ↦ record { sessions = ground arith; config = ground arith }
    | inr (e, h) ↦
        let b : ApiServer st = record a { bmc_creds = erase id a.bmc_creds } in
        let c : Same b (logout st name e.creds b) = logout-Same name e.creds b in
        record { sessions = ground (arith, c.sessions); config = ground (arith, c.config) }
  ]

  -- One session is set, and nothing else of the sessions and the configuration changes.
  pub record Saved (a b : ApiServer st) (s : KvmSession) : Type 0 where
    pub view : st.view b.sessions ≡ insert s.id s (st.view a.sessions)
    pub config : b.config ≡ a.config

  pub save-Saved : (s : KvmSession) (a : ApiServer st) → Saved a (save st s a) s
  unfolding save
  save-Saved s a = record { view = st.view-put s a.sessions; config = refl }

  pub Saved-Same :
      (a b c d : ApiServer st) (s : KvmSession) → Same a b → Saved b c s → Same c d → Saved a d s
  Saved-Same a b c d s p q r = record {
    view = ground (arith, ap st.view r.sessions, q.view, p.sessions);
    config = r.config ∙ q.config ∙ p.config;
  }
