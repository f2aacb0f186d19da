-- ===== src/Api/Limits.antt =====
-- The handlers, the starts of sessions and the cleanup as steps of the server, and what bounds the
-- active sessions.
pub mod Invariant
pub mod Calls
use kvm_switcher.Api.Limits.Calls.{
  clean_idle-Inv, cleanup_stale-Same, delete_session-Inv, keep_alive-Inv, some_inj,
}
use kvm_switcher.Api.Limits.Invariant.{Same-Inv, set_again-Inv, admit-Free, commit-Inv, Inv}
use kvm_switcher.Session.{
  starting, connected, SessionStatus, disconnected, find_in, is_active, KvmSession, SessionStore,
}
use kvm_switcher.Prelude.{
  [], Option, erase, Bool, ◌∷◌, List, ℤ, Bool-cases, if◌then◌else◌, inl, refl, inr, arith, ◌<◌,
  Option-cases, lookup-NamedBy, insert-Distinct, false, insert-NamedBy, keys, sym, ◌⊎◌, Distinct,
  true, subst, insert, none, ◌∙◌, NamedBy, ap, pos, some, ◌≡◌, lookup, String, ℕ,
}
use kvm_switcher.Api.Sessions.{
  logout, email_of, drop_creds, stop_all, new_session, Response, active_count, answers, Request,
  Admission, admit, commit, admit_to, delete_session, keep_alive_session, create_session,
}
use kvm_switcher.Api.Cleanup.{is_stale, older, clean_idle, cleanup_stale_bmc_creds, session_cleanup}
use kvm_switcher.Api.Views.{
  Same-trans, logout-Same, drop_creds-Same, stop_all-Same, Same-refl, stop_ikvm_bridge-Same,
  save-Saved, log_audit-Same, Same, Saved,
}
use kvm_switcher.Api.{
  log_audit, AuditEntry, BmcCredEntry, stop_ikvm_bridge, save, find_server, ApiServer,
}
use kvm_switcher.Api.Occupancy.{
  insert_inactive-Fits, insert_fresh-Fits, active_count_lem, actives, insert_over-Fits, Fits,
}
use kvm_switcher.Api.Starting.Ends.{start_session-Finishes, IsTelling}
use kvm_switcher.Api.Starting.{start_session, Board}
use kvm_switcher.Oidc.{allows, denies, user_can_access_server, panics, Access}
use kvm_switcher.Models.{ServerConfig}

module _ (st : SessionStore) where
  -- A start is the end of a `startSession` on the session as it then is, which is still active.
  pub data Step (a b : ApiServer st) : Type 0 where
    creates :
        (req : Request) (id : String) (now : ℕ) (r : Response)
        → lookup id (st.view a.sessions) ≡ none
        → create_session st req id now a ≡ (b, r)
        → Step a b
    starts :
        (env : String → String) (board : Board) (now : ℕ) (cfg : ServerConfig) (s : KvmSession)
        → lookup s.id (st.view a.sessions) ≡ some s
        → is_active s.status ≡ true
        → IsTelling board
        → start_session st env board now s cfg a ≡ some b
        → Step a b
    keeps : (id : String) (now : ℕ) → keep_alive_session st id now a ≡ some b → Step a b
    deletes : (req : Request) (id : String) → delete_session st req id a ≡ some b → Step a b
    ticks : (now : ℕ) → session_cleanup st now a ≡ b → Step a b

  pub data Reach (a : ApiServer st) : ApiServer st → Type 0 where
    here : Reach a a
    then_step : {b c : ApiServer st} → Reach a b → Step b c → Reach a c

  Step-Inv : (limit : ℕ) (a b : ApiServer st) → Step a b → Inv st limit a → Inv st limit b
  unfolding session_cleanup create_session
  Step-Inv limit a b (creates req id now r h e) i = subst (Inv st limit) (ap (λ p. p.0) e) (
      commit-Inv st limit req id now (admit st req a) a h
        (λ n c. admit-Free st limit req n c a i.limited) i)
  Step-Inv limit a b (starts env board now cfg s h act tells e) i =
      let (c, eq, (t, saved, ended)) = start_session-Finishes st env board now s cfg a tells in
      subst (Inv st limit) (some_inj c b (sym eq ∙ e)) (
        set_again-Inv st limit a c t s
          (subst (λ k. lookup k (st.view a.sessions) ≡ some s) (sym ended.id) h) ended.server_name
          (inl act) saved i)
  Step-Inv limit a b (keeps id now e) i = keep_alive-Inv st limit id now a b e i
  Step-Inv limit a b (deletes req id e) i = delete_session-Inv st limit req id a b e i
  Step-Inv limit a b (ticks now e) i =
      let c : ApiServer st = clean_idle st (st.list a.sessions) now a in
      subst (Inv st limit) e (
        Same-Inv st limit c _
          (cleanup_stale-Same st now c.config.settings.bmc_creds_ttl_minutes c.bmc_creds c)
          (clean_idle-Inv st limit (st.list a.sessions) now a i))

  -- In whatever order sessions are created under fresh names, started while they are still active,
  -- kept alive, deleted and cleaned up, and whichever store keeps them: there are never more active
  -- sessions than the configured limit, and never two for one server.
  pub Reach-Inv : (limit : ℕ) (a b : ApiServer st) → Reach a b → Inv st limit a → Inv st limit b
  Reach-Inv limit a b here i = i
  Reach-Inv limit a c (then_step {b} r s) i = Step-Inv limit b c s (Reach-Inv limit a b r i)
