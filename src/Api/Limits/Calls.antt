-- ===== src/Api/Limits/Calls.antt =====
-- The handlers and the cleanup keep the invariant on the active sessions.
use kvm_switcher.Api.Limits.Invariant.{found-named, Saved-Inv, Same-Inv, set_again-Inv, Inv}
use kvm_switcher.Session.{
  starting, connected, SessionStatus, disconnected, is_active, KvmSession, SessionStore,
}
use kvm_switcher.Prelude.{
  [], Option, erase, Bool, ◌∷◌, List, ℤ, Bool-cases, if◌then◌else◌, inl, refl, inr, arith,
  Option-cases, false, true, subst, none, some, ◌≡◌, String, ℕ,
}
use kvm_switcher.Api.Sessions.{
  logout, email_of, drop_creds, stop_all, Request, delete_session, keep_alive_session,
}
use kvm_switcher.Api.Cleanup.{is_stale, older, clean_idle, cleanup_stale_bmc_creds}
use kvm_switcher.Api.Views.{
  Same-trans, logout-Same, drop_creds-Same, stop_all-Same, Same-refl, stop_ikvm_bridge-Same,
  save-Saved, log_audit-Same, Same,
}
use kvm_switcher.Api.{log_audit, AuditEntry, BmcCredEntry, stop_ikvm_bridge, save, ApiServer}
use kvm_switcher.Api.Occupancy.{insert_inactive-Fits}

pub some_inj : {A : Type 0} (x y : A) → some x ≡ some y → x ≡ y
some_inj x y e = cc

module _ (st : SessionStore) where
  pub keep_alive-Inv :
      (limit : ℕ) (id : String) (now : ℕ) (a b : ApiServer st)
      → keep_alive_session st id now a ≡ some b
      → Inv st limit a
      → Inv st limit b
  unfolding keep_alive_session
  keep_alive-Inv limit id now a b h i = elim (Option-cases (st.get id a.sessions)) [
    | inl e ↦ ground arith
    | inr (s, e) ↦
        let t : KvmSession = record s { last_activity = now } in
        let c : ApiServer st = save st t a in
        subst (Inv st limit) (some_inj c b (ground (arith, h, e))) (
          set_again-Inv st limit a c t s (found-named st id s a limit i e) refl
            (Bool-cases (is_active s.status)) (save-Saved st t a) i)
  ]

  pub delete_session-Inv :
      (limit : ℕ) (req : Request) (id : String) (a b : ApiServer st)
      → delete_session st req id a ≡ some b
      → Inv st limit a
      → Inv st limit b
  unfolding delete_session
  delete_session-Inv limit req id a b h i = elim (Option-cases (st.get id a.sessions)) [
    | inl e ↦ ground arith
    | inr (s, e) ↦
        let t : KvmSession = record s { status = disconnected } in
        let c : ApiServer st = stop_all st id (drop_creds st id s.server_name a) in
        let d : ApiServer st = save st t c in
        let x : AuditEntry = record {
          event_type = "session_delete";
          user_email = email_of req.user;
          server_name = s.server_name;
          session_id = id;
          remote_addr = req.ip;
        } in
        let j : Inv st limit c =
          Same-Inv st limit (drop_creds st id s.server_name a) c
            (stop_all-Same st id (drop_creds st id s.server_name a))
            (Same-Inv st limit a (drop_creds st id s.server_name a)
              (drop_creds-Same st id s.server_name a) i) in
        subst (Inv st limit) (some_inj (log_audit st x d) b (ground (arith, h, e))) (
          Same-Inv st limit d (log_audit st x d) (log_audit-Same st x d) (
            Saved-Inv st limit c d t (save-Saved st t c)
              (insert_inactive-Fits limit t t.id (st.view c.sessions) refl j.fits) j))
  ]

  pub idled-Inv :
      (limit : ℕ) (s : KvmSession) (a : ApiServer st)
      → Inv st limit a
      → Inv st limit (save st (record s { status = disconnected }) (stop_ikvm_bridge st s.id a))
  idled-Inv limit s a i =
      let t : KvmSession = record s { status = disconnected } in
      let c : ApiServer st = stop_ikvm_bridge st s.id a in
      let j : Inv st limit c = Same-Inv st limit a c (stop_ikvm_bridge-Same st s.id a) i in
      Saved-Inv st limit c (save st t c) t (save-Saved st t c)
        (insert_inactive-Fits limit t t.id (st.view c.sessions) refl j.fits) j

  pub clean_idle-Inv :
      (limit : ℕ) (ss : List KvmSession) (now : ℕ) (a : ApiServer st)
      → Inv st limit a
      → Inv st limit (clean_idle st ss now a)
  unfolding clean_idle
  clean_idle-Inv limit [] now a i = i
  clean_idle-Inv limit (s ∷ ss) now a i = clean_idle-Inv limit ss now _ (go s.status idle)
    where
      idle : Bool
      idle = older s.last_activity now a.config.settings.idle_timeout_minutes

      go :
          (u : SessionStatus) (old : Bool)
          → Inv st limit (elim u [
            | connected ↦
                if old
                then save st (record s { status = disconnected }) (stop_ikvm_bridge st s.id a)
                else a
            | starting ↦ a
            | disconnected ↦ a
            | SessionStatus.error ↦ a
          ])
      go connected true = idled-Inv limit s a i
      go connected false = i
      go starting old = i
      go disconnected old = i
      go SessionStatus.error old = i

  pub cleanup_stale-Same :
      (now : ℕ) (ttl : ℤ) (es : List (String × BmcCredEntry)) (a : ApiServer st)
      → Same st a (cleanup_stale_bmc_creds st now ttl es a)
  unfolding cleanup_stale_bmc_creds
  cleanup_stale-Same now ttl [] a = Same-refl st a
  cleanup_stale-Same now ttl ((id, e) ∷ es) a =
      Same-trans st a _ _ (go (is_stale st now ttl id e a) (st.get id a.sessions))
        (cleanup_stale-Same now ttl es _)
    where
      b : ApiServer st
      b = record a { bmc_creds = erase id a.bmc_creds }

      go :
          (stale : Bool) (o : Option KvmSession)
          → Same st a (
              if stale then elim o [ none ↦ b | some s ↦ logout st s.server_name e.creds b ] else a)
      go true none = record { sessions = refl; config = refl }
      go true (some s) =
          let r : Same st b (logout st s.server_name e.creds b) =
            logout-Same st s.server_name e.creds b in
          record { sessions = r.sessions; config = r.config }
      go false o = Same-refl st a
