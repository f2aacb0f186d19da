-- ===== src/Api/Limits/Invariant.antt =====
-- The invariant on the active sessions, and what setting one session does to it.
use kvm_switcher.Session.{find_in, is_active, KvmSession, SessionStore}
use kvm_switcher.Prelude.{
  if◌then◌else◌, inl, refl, inr, arith, ◌<◌, Option-cases, lookup-NamedBy, insert-Distinct, false,
  insert-NamedBy, keys, sym, ◌⊎◌, Distinct, true, subst, insert, none, ◌∙◌, NamedBy, ap, pos, some,
  ◌≡◌, lookup, String, ℕ,
}
use kvm_switcher.Api.Sessions.{
  new_session, active_count, answers, Request, Admission, admit, commit, admit_to,
}
use kvm_switcher.Api.Views.{save-Saved, log_audit-Same, Same, Saved}
use kvm_switcher.Api.{save, find_server, ApiServer}
use kvm_switcher.Api.Occupancy.{
  insert_fresh-Fits, active_count_lem, actives, insert_over-Fits, Fits,
}
use kvm_switcher.Oidc.{allows, denies, user_can_access_server, panics, Access}
use kvm_switcher.Models.{ServerConfig}

module _ (st : SessionStore) where
  abbrev pub session_name : KvmSession → String
  session_name s = s.id

  -- At most `limit` sessions are active and at most one for a server; each is kept under its own name.
  pub record Inv (limit : ℕ) (a : ApiServer st) : Type 0 where
    pub limited : a.config.settings.max_concurrent_sessions ≡ pos limit
    pub named : NamedBy session_name (st.view a.sessions)
    pub distinct : Distinct (keys (st.view a.sessions))
    pub fits : Fits limit (st.view a.sessions)

  pub Same-Inv : (limit : ℕ) (a b : ApiServer st) → Same st a b → Inv limit a → Inv limit b
  Same-Inv limit a b p i = record {
    limited = ap (λ c. c.settings.max_concurrent_sessions) p.config ∙ i.limited;
    named = subst (λ s. NamedBy session_name (st.view s)) (sym p.sessions) i.named;
    distinct = subst (λ s. Distinct (keys (st.view s))) (sym p.sessions) i.distinct;
    fits = subst (λ s. Fits limit (st.view s)) (sym p.sessions) i.fits;
  }

  pub Saved-Inv :
      (limit : ℕ) (a b : ApiServer st) (s : KvmSession)
      → Saved st a b s
      → Fits limit (insert s.id s (st.view a.sessions))
      → Inv limit a
      → Inv limit b
  Saved-Inv limit a b s p f i = record {
    limited = ap (λ c. c.settings.max_concurrent_sessions) p.config ∙ i.limited;
    named =
        subst (NamedBy session_name) (sym p.view)
          (insert-NamedBy session_name s.id s (st.view a.sessions) refl i.named);
    distinct =
        subst (λ m. Distinct (keys m)) (sym p.view)
          (insert-Distinct s.id s (st.view a.sessions) i.distinct);
    fits = subst (Fits limit) (sym p.view) f;
  }

  -- A session that is set again, without becoming active.
  pub set_again-Inv :
      (limit : ℕ) (a b : ApiServer st) (s old : KvmSession)
      → lookup s.id (st.view a.sessions) ≡ some old
      → s.server_name ≡ old.server_name
      → (is_active old.status ≡ true) ⊎ (is_active s.status ≡ false)
      → Saved st a b s
      → Inv limit a
      → Inv limit b
  set_again-Inv limit a b s old h n act p i =
      Saved-Inv limit a b s p
        (insert_over-Fits limit s old s.id (st.view a.sessions) h n act i.fits) i

  -- A request that may make a session found no active one for its server, and a free place.
  pub admit_to-Free :
      (limit : ℕ) (access : Access) (name n : String) (cfg c : ServerConfig) (a : ApiServer st)
      → a.config.settings.max_concurrent_sessions ≡ pos limit
      → admit_to st access name cfg a ≡ Admission.creates n c
      → (find_in n (st.view a.sessions) ≡ none) × (actives (st.view a.sessions) < limit)
  unfolding admit_to
  admit_to-Free limit panics name n cfg c a l h = ground arith
  admit_to-Free limit denies name n cfg c a l h = ground arith
  admit_to-Free limit allows name n cfg c a l h =
      elim (Option-cases (st.find_by_server name a.sessions)) [
        | inr (s, e) ↦ ground arith
        | inl e ↦ ground (
          arith,
          st.find_lem name a.sessions,
          ap active_count (st.list_lem a.sessions),
          active_count_lem (st.view a.sessions),
          l,
        )
      ]

  pub admit-Free :
      (limit : ℕ) (req : Request) (n : String) (c : ServerConfig) (a : ApiServer st)
      → a.config.settings.max_concurrent_sessions ≡ pos limit
      → admit st req a ≡ Admission.creates n c
      → (find_in n (st.view a.sessions) ≡ none) × (actives (st.view a.sessions) < limit)
  unfolding admit
  admit-Free limit req n c a l h = elim (Option-cases req.server_name) [
    | inl e ↦ ground arith
    | inr (name, e) ↦ elim (Option-cases (find_server name a.config.servers)) [
      | inl g ↦ ground arith
      | inr (cfg, g) ↦
          let access : Access =
            (if a.config.oidc.enabled
              then user_can_access_server a.config.oidc req.user name
              else allows) in
          ground (arith, admit_to-Free limit access name n cfg c a l)
    ]
  ]

  pub commit-Inv :
      (limit : ℕ) (req : Request) (id : String) (now : ℕ) (m : Admission) (a : ApiServer st)
      → lookup id (st.view a.sessions) ≡ none
      → ((n : String) (c : ServerConfig)
          → m ≡ Admission.creates n c
          → (find_in n (st.view a.sessions) ≡ none) × (actives (st.view a.sessions) < limit))
      → Inv limit a
      → Inv limit (commit st req id now m a).0
  unfolding commit
  commit-Inv limit req id now (answers r) a h f i = i
  commit-Inv limit req id now (Admission.creates n c) a h f i =
      let s : KvmSession = new_session id n c now in
      let b : ApiServer st = save st s a in
      let (free, less) = f n c refl in
      Same-Inv limit b _ (log_audit-Same st _ b) (
        Saved-Inv limit a b s (save-Saved st s a)
          (insert_fresh-Fits limit s id (st.view a.sessions) h free less i.fits) i)

  pub found-named :
      (id : String) (s : KvmSession) (a : ApiServer st) (limit : ℕ)
      → Inv limit a
      → st.get id a.sessions ≡ some s
      → lookup s.id (st.view a.sessions) ≡ some s
  found-named id s a limit i h =
      let g : lookup id (st.view a.sessions) ≡ some s = sym (st.get_lem id a.sessions) ∙ h in
      subst (λ k. lookup k (st.view a.sessions) ≡ some s)
        (sym (lookup-NamedBy session_name id s (st.view a.sessions) i.named g)) g
