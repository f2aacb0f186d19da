-- ===== src/Api/Viewing/TakenOver.antt =====
-- internal/api/handlers.go: a request for control and its acceptance, over HTTP.
use kvm_switcher.Prelude.{
  lookup-insert, ◌∙◌, ap, beq_iff, none, true, [], nat_eq, ◌∷◌, string_eq, arith, refl, inr, false,
  length, ◌==◌, inl, Option-cases, nat_beq, some, ◌≡◌, List, lookup, String, ℕ,
}
use kvm_switcher.Api.Viewing.{
  with_registry, accept_viewer_request, audited_as, Caller, request_viewer_control,
}
use kvm_switcher.Viewers.{accept_control_request, count, Registry, Viewer, request_control}
use kvm_switcher.Session.{KvmSession, SessionStore}
use kvm_switcher.Api.{ApiServer, AuditEntry, log_audit}

module _ (st : SessionStore) where
  pub log_audit-registries :
      (e : AuditEntry) (a : ApiServer st)
      → ((log_audit st e a).viewer_registries ≡ a.viewer_registries)
        × ((log_audit st e a).sessions ≡ a.sessions)
  unfolding log_audit
  log_audit-registries e a = elim (Option-cases a.audited) [
    | inl n ↦ rw n (refl, refl)
    | inr (es, n) ↦ rw n (refl, refl)
  ]

  asked : String → ℕ → Viewer → Registry → Registry
  asked viewer now v r = record r {
    pending = some (record {
      requester_id = viewer;
      requester_name = v.display_name;
      requested_at = now;
      timeout_sec = 30;
    });
    timer = some (record { for_id = viewer; seconds = 30 });
  }

  nonempty-lookup :
      (k : String) (v : Viewer) (m : List (String × Viewer))
      → lookup k m ≡ some v
      → nat_beq (length m) 0 ≡ false
  unfolding lookup
  nonempty-lookup k v [] h = ground arith
  nonempty-lookup k v (x ∷ m) h = ground arith

  -- The request puts the registry in the state in which it waits for an answer.
  request_control-asked :
      (viewer : String) (now : ℕ) (r : Registry) (v : Viewer)
      → lookup viewer r.viewers ≡ some v
      → (r.controller == viewer) ≡ false
      → request_control viewer 30 now r ≡ (asked viewer now v r, true)
  unfolding request_control asked
  request_control-asked viewer now r v ev other = rw (request_control, ev, other) refl

  request_viewer_control-asked :
      (id : String) (c : Caller) (now : ℕ) (a : ApiServer st) (s : KvmSession) (r : Registry)
      (v : Viewer)
      → st.get id a.sessions ≡ some s
      → lookup id a.viewer_registries ≡ some r
      → lookup c.viewer_id r.viewers ≡ some v
      → (c.viewer_id == "") ≡ false
      → (r.controller == c.viewer_id) ≡ false
      → (request_viewer_control st id c now a).0
        ≡ audited_as st "kvm_control_request" c s id
            (with_registry st id (asked c.viewer_id now v r) a)
  unfolding request_viewer_control count
  request_viewer_control-asked id c now a s r v es er ev named other =
      let n : (length r.viewers == 0) ≡ false = nonempty-lookup c.viewer_id v r.viewers ev in
      let q = request_control-asked c.viewer_id now r v ev other in
      rw (request_viewer_control, es, er, n, named, named, q) refl

  accept_control_request-asked :
      (viewer : String) (now : ℕ) (r : Registry) (v : Viewer)
      → lookup viewer r.viewers ≡ some v
      → accept_control_request (asked viewer now v r)
        ≡ (record r { controller = viewer; pending = none; timer = none }, true)
  unfolding accept_control_request asked
  accept_control_request-asked viewer now r v ev = rw ev refl

  accept_viewer_request-taken :
      (id : String) (c : Caller) (a : ApiServer st) (s : KvmSession) (r next : Registry)
      → st.get id a.sessions ≡ some s
      → lookup id a.viewer_registries ≡ some r
      → accept_control_request r ≡ (next, true)
      → lookup id (accept_viewer_request st id c a).0.viewer_registries ≡ some next
  unfolding accept_viewer_request
  accept_viewer_request-taken id c a s r next es er q =
      let i : (id == id) ≡ true = (beq_iff id id).1 refl in
      rw (accept_viewer_request, es, er, q)
        (ap (lookup id) (log_audit-registries _ (with_registry st id next a)).0
          ∙ lookup-insert id id next a.viewer_registries
          ∙ rw i refl)

  -- A viewer of a session that names itself, and has no control yet, gets the control by a request of its own
  -- and an acceptance that anyone may send, itself too: what the viewer with control says is not asked for.
  pub accept_viewer_request-request :
      (id : String) (c other : Caller) (now : ℕ) (a : ApiServer st) (s : KvmSession) (r : Registry)
      (v : Viewer)
      → st.get id a.sessions ≡ some s
      → lookup id a.viewer_registries ≡ some r
      → lookup c.viewer_id r.viewers ≡ some v
      → (c.viewer_id == "") ≡ false
      → (r.controller == c.viewer_id) ≡ false
      → lookup id
          (accept_viewer_request st id other
            (request_viewer_control st id c now a).0).0.viewer_registries
        ≡ some (record r { controller = c.viewer_id; pending = none; timer = none })
  accept_viewer_request-request id c other now a s r v es er ev named free =
      let i : (id == id) ≡ true = (beq_iff id id).1 refl in
      let b = with_registry st id (asked c.viewer_id now v r) a in
      let l = log_audit-registries _ b in
      rw (request_viewer_control-asked id c now a s r v es er ev named free) (
        accept_viewer_request-taken id other (audited_as st "kvm_control_request" c s id b) s
          (asked c.viewer_id now v r)
          (record r { controller = c.viewer_id; pending = none; timer = none }) (rw l.1 es)
          (ap (lookup id) l.0
            ∙ lookup-insert id id (asked c.viewer_id now v r) a.viewer_registries
            ∙ rw i refl)
          (accept_control_request-asked c.viewer_id now r v ev))
