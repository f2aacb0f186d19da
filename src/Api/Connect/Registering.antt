-- ===== src/Api/Connect/Registering.antt =====
-- internal/api/websocket.go: the registry of viewers after a connection.
use kvm_switcher.Viewers.Newcomer.{remove-add_new, IsNew}
use kvm_switcher.Session.{unset, web_socket, vnc, ikvm, KvmMode, KvmSession, SessionStore}
use kvm_switcher.Prelude.{
  subst, ◌&&◌, Bool, Option, ap, Option-cases, ◌∙◌, sym, lookup-insert, insert, refl, inr, inl,
  ◌==◌, string_eq, Bool-cases, beq_iff, ◌≡◌, lookup, List, String, none, some, true, false,
}
use kvm_switcher.Api.Connect.{
  unknown, is_connected, proxy_by_mode, proxy_ikvm, handle_kvm_websocket, ended_at_once,
  told_connection, make_ikvm_bridge, proxy_other, set_active, ensure_ikvm_bridge, unregister_viewer,
  register_viewer, Connected, name_for, Visit, turned_away, dropped, served_by, proxied,
}
use kvm_switcher.Api.Viewing.TakenOver.{log_audit-registries}
use kvm_switcher.Ikvm.Bridge.{Bridge}
use kvm_switcher.Api.{save, find_server, ApiServer}
use kvm_switcher.Api.Commands.{Bridges}
use kvm_switcher.Api.Viewing.{ensure_viewer_registry}
use kvm_switcher.Viewers.{new, Registry, remove, add}

abbrev pub registry_in : String → List (String × Registry) → Registry
registry_in id rs = elim (lookup id rs) [ none ↦ new | some r ↦ r ]

lookup-insert_same {ℓ} :
    {A : Type ℓ} (id : String) (x : A) (m : List (String × A)) → lookup id (insert id x m) ≡ some x
lookup-insert_same id x m =
    let i : (id == id) ≡ true = (beq_iff id id).1 refl in lookup-insert id id x m ∙ rw i refl

module _ (st : SessionStore) where
  abbrev pub registry_of : String → ApiServer st → Registry
  registry_of id a = registry_in id a.viewer_registries

  -- A viewer that is served is in the session's registry, which was the given one, and after any other
  -- connection the registry is what it was.
  abbrev pub Registered : String → Visit → Registry → (Bridges × ApiServer st) × Connected → Type 0
  Registered id v r ((bs, b), served_by x) =
      registry_of id b ≡ add v.viewer (name_for st v) v.ip v.now r
  Registered id v r ((bs, b), proxied) =
      registry_of id b ≡ add v.viewer (name_for st v) v.ip v.now r
  Registered id v r ((bs, b), dropped) = registry_of id b ≡ r
  Registered id v r ((bs, b), turned_away code msg) = registry_of id b ≡ r

  told_registries :
      (event : String) (v : Visit) (s : KvmSession) (b : ApiServer st)
      → (told_connection st event v s b).viewer_registries ≡ b.viewer_registries
  told_registries event v s b = (log_audit-registries st _ b).0

  ended-Registered :
      (id : String) (v : Visit) (r : Registry) (s : KvmSession)
      (x : (Bridges × ApiServer st) × Connected)
      → Registered id v r x
      → Registered id v r (ended_at_once st v s x)
  ended-Registered id v r s ((bs, b), served_by x) h = h
  ended-Registered id v r s ((bs, b), proxied) h = h
  ended-Registered id v r s ((bs, b), dropped) h =
      ap (registry_in id) (told_registries "kvm_disconnect" v s b) ∙ h
  ended-Registered id v r s ((bs, b), turned_away code msg) h =
      ap (registry_in id) (told_registries "kvm_disconnect" v s b) ∙ h

  set_active-registries :
      (active : Bool) (server : String) (b : ApiServer st)
      → (set_active st active server b).viewer_registries ≡ b.viewer_registries
  set_active-registries active server b =
      elim (Option-cases (find_server server b.config.servers)) [
        | inl e ↦ rw (set_active, e) refl
        | inr (cfg, e) ↦ rw (set_active, e) refl
      ]

  make-registries :
      (s : KvmSession) (reaches : Bool) (bs : Bridges) (b : ApiServer st)
      → (make_ikvm_bridge st s reaches bs b).0.1.viewer_registries ≡ b.viewer_registries
  make-registries s true bs b = set_active-registries true s.server_name b
  make-registries s false bs b =
      set_active-registries false s.server_name (set_active st true s.server_name b)
      ∙ set_active-registries true s.server_name b

  ensure-registries :
      (s : KvmSession) (reaches : Bool) (bs : Bridges) (b : ApiServer st)
      → (ensure_ikvm_bridge st s reaches bs b).0.1.viewer_registries ≡ b.viewer_registries
  unfolding ensure_ikvm_bridge
  ensure-registries s reaches bs b = elim (Option-cases (lookup s.id bs)) [
    | inl e ↦ elim (Option-cases s.ikvm_args) [
      | inl f ↦ rw (ensure_ikvm_bridge, e, f) refl
      | inr (args, f) ↦ rw (ensure_ikvm_bridge, e, f) (make-registries s reaches bs b)
    ]
    | inr (x, e) ↦ elim (Bool-cases x.running) [
      | inl g ↦ rw (ensure_ikvm_bridge, e, g) refl
      | inr g ↦ elim (Option-cases s.ikvm_args) [
        | inl f ↦ rw (ensure_ikvm_bridge, e, g, f) refl
        | inr (args, f) ↦ rw (ensure_ikvm_bridge, e, g, f) (make-registries s reaches bs b)
      ]
    ]
  ]

  module _ (s : KvmSession) (v : Visit) (a : ApiServer st)
      (n : IsNew v.viewer (registry_of s.id a)) where
    abbrev joined : Registry
    joined = add v.viewer (name_for st v) v.ip v.now (registry_of s.id a)

    registered : lookup s.id (register_viewer st s.id v a).viewer_registries ≡ some joined
    unfolding ensure_viewer_registry
    registered =
        let adds : Registry → Option Registry =
          λ r. some (add v.viewer (name_for st v) v.ip v.now r) in
        elim (Option-cases (lookup s.id a.viewer_registries)) [
          | inl e ↦
              let q : registry_of s.id a ≡ new = rw (registry_in, e) refl in
              rw (ensure_viewer_registry, e)
                (lookup-insert_same s.id _ (insert s.id new a.viewer_registries))
              ∙ ap adds (sym q)
          | inr (r, e) ↦
              let q : registry_of s.id a ≡ r = rw (registry_in, e) refl in
              rw (ensure_viewer_registry, e) (lookup-insert_same s.id _ a.viewer_registries)
              ∙ ap adds (sym q)
        ]

    served :
        (b : ApiServer st)
        → lookup s.id b.viewer_registries ≡ some joined
        → registry_of s.id b ≡ joined
    served b l = rw (registry_in, l) refl

    unregistered :
        (b : ApiServer st)
        → lookup s.id b.viewer_registries ≡ some joined
        → registry_of s.id (unregister_viewer st s.id v.viewer b) ≡ registry_of s.id a
    unregistered b l =
        let m = lookup-insert_same s.id (remove v.viewer joined) b.viewer_registries in
        rw (unregister_viewer, l, registry_in, m)
          (remove-add_new v.viewer (name_for st v) v.ip v.now (registry_of s.id a) n)

    proxy_ikvm-Registered :
        (bs : Bridges) → Registered s.id v (registry_of s.id a) (proxy_ikvm st s v bs a)
    unfolding proxy_ikvm
    proxy_ikvm-Registered bs =
        let x : (Bridges × ApiServer st) × Option Bridge =
          ensure_ikvm_bridge st s v.reaches bs (register_viewer st s.id v a) in
        let l : lookup s.id x.0.1.viewer_registries ≡ some joined =
          ap (lookup s.id) (ensure-registries s v.reaches bs (register_viewer st s.id v a))
          ∙ registered in
        elim (Bool-cases v.upgrades) [
          | inr u ↦ rw (proxy_ikvm, u) refl
          | inl u ↦ elim (Option-cases x.1) [
            | inl e ↦ rw (proxy_ikvm, u, e) (unregistered x.0.1 l)
            | inr (b, e) ↦ rw (proxy_ikvm, u, e) (served x.0.1 l)
          ]
        ]

    proxy_other-Registered :
        (keep : String → ApiServer st → ApiServer st) (bs : Bridges)
        → ((server : String) (b : ApiServer st)
            → (keep server b).viewer_registries ≡ b.viewer_registries)
        → Registered s.id v
            (registry_of s.id a)
            ((bs, (proxy_other st keep s v a).0), (proxy_other st keep s v a).1)
    unfolding proxy_other
    proxy_other-Registered keep bs same = elim (Bool-cases (v.upgrades && v.reaches)) [
      | inl e ↦
          rw (proxy_other, e)
            (served (keep s.server_name (register_viewer st s.id v a))
              (ap (lookup s.id) (same s.server_name (register_viewer st s.id v a)) ∙ registered))
      | inr e ↦ rw (proxy_other, e) (unregistered (register_viewer st s.id v a) registered)
    ]

    by_mode-Registered :
        (m : KvmMode) (bs : Bridges)
        → Registered s.id v (registry_of s.id a) (proxy_by_mode st s v m bs a)
    by_mode-Registered ikvm bs = proxy_ikvm-Registered bs
    by_mode-Registered vnc bs = proxy_other-Registered _ bs (λ server b. refl)
    by_mode-Registered web_socket bs = proxy_other-Registered _ bs (λ server b. refl)
    by_mode-Registered unset bs = refl
    by_mode-Registered (unknown t) bs = refl

  -- A viewer with a name that is new to the registry connects to a session, of whose viewers one has control
  -- unless there are none: if the connection is served, the registry has that viewer too, and otherwise,
  -- whatever fails, it is exactly what it was before.
  pub handle_kvm_websocket-Registered :
      (s : KvmSession) (v : Visit) (bs : Bridges) (a : ApiServer st)
      → st.get s.id a.sessions ≡ some s
      → IsNew v.viewer (registry_of s.id a)
      → Registered s.id v (registry_of s.id a) (handle_kvm_websocket st s.id v bs a)
  unfolding handle_kvm_websocket save
  handle_kvm_websocket-Registered s v bs a l n =
      let t : KvmSession = record s { last_activity = v.now } in
      let b : ApiServer st = told_connection st "kvm_connect" v t (save st t a) in
      let q : registry_of s.id b ≡ registry_of s.id a =
        ap (registry_in s.id) (told_registries "kvm_connect" v t (save st t a)) in
      elim (Bool-cases (is_connected st s.status)) [
        | inr c ↦ rw (handle_kvm_websocket, l, c) refl
        | inl c ↦
            rw (handle_kvm_websocket, l, c)
              (subst
                (λ r.
                  Registered s.id v r
                    (ended_at_once st v t (proxy_by_mode st t v t.conn_mode bs b)))
                q
                (ended-Registered s.id v (registry_of s.id b) t
                  (proxy_by_mode st t v t.conn_mode bs b)
                  (by_mode-Registered t v b (subst (IsNew v.viewer) (sym q) n) t.conn_mode bs)))
      ]
