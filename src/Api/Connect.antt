-- ===== src/Api/Connect.antt =====
-- internal/api/websocket.go: a viewer's connection, from `HandleKVMWebSocket` on. Its start and its end are two
-- steps, between which other handlers run.
pub mod Registering
mod Tests
use kvm_switcher.Session.{
  unset, web_socket, vnc, ikvm, unknown, KvmMode, connected, KvmSession, SessionStatus,
  SessionStore,
}
use kvm_switcher.Viewers.{remove, add}
use kvm_switcher.Api.{proxy_of, save, log_audit, find_server, ApiServer}
use kvm_switcher.Prelude.{
  insert, ◌&&◌, not, lookup, if◌then◌else◌, Bool, Option, String, ℕ, [], ◌∷◌, none, some, true,
  false,
}
use kvm_switcher.Api.Viewing.{with_registry, ensure_viewer_registry}
use kvm_switcher.Ikvm.Bridge.{new_bridge, start, Bridge}
use kvm_switcher.Api.Sessions.{email_of}
use kvm_switcher.Api.Commands.{Bridges}
use kvm_switcher.Models.{UserInfo}

-- The user, the host part of the address, and the `viewer_id` of the query or else the new random name.
-- `upgrades` is whether the upgrade to a WebSocket succeeds, `reaches` whether a new connection to the board does.
pub record Visit : Type 0 where
  pub user : Option UserInfo
  pub ip : String
  pub viewer : String
  pub now : ℕ
  pub upgrades : Bool
  pub reaches : Bool

pub data Connected : Type 0 where
  turned_away : ℕ → String → Connected
  -- The connection is over at once.
  dropped : Connected
  -- It is served by a bridge, or by the proxy of another mode.
  served_by : Bridge → Connected
  proxied : Connected

module _ (st : SessionStore) where
  abbrev pub name_for : Visit → String
  name_for v = elim v.user [ none ↦ v.ip | some u ↦ u.email ]

  abbrev pub register_viewer : String → Visit → ApiServer st → ApiServer st
  register_viewer id v a =
      let (r, b) = ensure_viewer_registry st id a in
      with_registry st id (add v.viewer (name_for v) v.ip v.now r) b

  abbrev pub unregister_viewer : String → String → ApiServer st → ApiServer st
  unregister_viewer id viewer a = elim (lookup id a.viewer_registries) [
    | none ↦ a
    | some r ↦ with_registry st id (remove viewer r) a
  ]

  abbrev pub set_active : Bool → String → ApiServer st → ApiServer st
  set_active active server a = elim (find_server server a.config.servers) [
    | none ↦ a
    | some cfg ↦ record a {
      proxies =
          insert cfg.name (record (proxy_of cfg.name a.proxies) { kvm_active = active }) a.proxies;
    }
  ]

  -- A new bridge, once the session has the arguments for it.
  abbrev pub make_ikvm_bridge :
      KvmSession → Bool → Bridges → ApiServer st → (Bridges × ApiServer st) × Option Bridge
  make_ikvm_bridge s reaches bs a =
      let b : Bridge = (start reaches new_bridge).1 in
      if reaches
      then ((insert s.id b bs, set_active true s.server_name a), some b)
      else ((bs, set_active false s.server_name (set_active true s.server_name a)), none)

  unfoldable pub ensure_ikvm_bridge :
      KvmSession → Bool → Bridges → ApiServer st → (Bridges × ApiServer st) × Option Bridge
  ensure_ikvm_bridge s reaches bs a =
      let fresh : (Bridges × ApiServer st) × Option Bridge = elim s.ikvm_args [
        | none ↦ ((bs, a), none)
        | some args ↦ make_ikvm_bridge s reaches bs a
      ] in
      elim (lookup s.id bs) [
        | none ↦ fresh
        | some b ↦ if b.running then ((bs, a), some b) else fresh
      ]

  -- The upgrade comes first, and then the viewer is registered.
  unfoldable pub proxy_ikvm :
      KvmSession → Visit → Bridges → ApiServer st → (Bridges × ApiServer st) × Connected
  proxy_ikvm s v bs a =
      let ((cs, b), bridge) = ensure_ikvm_bridge s v.reaches bs (register_viewer s.id v a) in
      if not v.upgrades then ((bs, a), dropped) else elim bridge [
        | none ↦ ((cs, unregister_viewer s.id v.viewer b), dropped)
        | some served ↦ ((cs, b), served_by served)
      ]

  -- The viewer is registered first; `reaches` is what comes of `ensureVNCBridge` or `ensureWSSProxy`.
  unfoldable pub proxy_other :
      (String → ApiServer st → ApiServer st)
      → KvmSession
      → Visit
      → ApiServer st
      → ApiServer st × Connected
  proxy_other keep s v a =
      let joined : ApiServer st = register_viewer s.id v a in
      if v.upgrades && v.reaches
      then (keep s.server_name joined, proxied)
      else (unregister_viewer s.id v.viewer joined, dropped)

  abbrev pub told_connection : String → Visit → KvmSession → ApiServer st → ApiServer st
  told_connection event v s a =
      log_audit st
        (record {
          event_type = event;
          user_email = email_of v.user;
          server_name = s.server_name;
          session_id = s.id;
          remote_addr = v.ip;
        })
        a

  -- The switch on the mode.
  abbrev pub proxy_by_mode :
      KvmSession → Visit → KvmMode → Bridges → ApiServer st → (Bridges × ApiServer st) × Connected
  proxy_by_mode s v ikvm bs a = proxy_ikvm s v bs a
  proxy_by_mode s v vnc bs a =
      let (b, c) =
        proxy_other (λ server b. record b { vnc_bridges = insert s.id server b.vnc_bridges }) s v
          a in
      ((bs, b), c)
  proxy_by_mode s v web_socket bs a =
      let (b, c) =
        proxy_other (λ server b. record b { wss_proxies = insert s.id server b.wss_proxies }) s v
          a in
      ((bs, b), c)
  proxy_by_mode s v unset bs a = ((bs, a), turned_away 400 "unsupported KVM mode")
  proxy_by_mode s v (unknown t) bs a = ((bs, a), turned_away 400 "unsupported KVM mode")

  abbrev pub is_connected : SessionStatus → Bool
  is_connected connected = true
  is_connected _ = false

  -- A connection that does not go on is told as ended at once.
  abbrev pub ended_at_once :
      Visit
      → KvmSession
      → (Bridges × ApiServer st) × Connected
      → (Bridges × ApiServer st) × Connected
  ended_at_once v s ((bs, a), served_by b) = ((bs, a), served_by b)
  ended_at_once v s ((bs, a), proxied) = ((bs, a), proxied)
  ended_at_once v s ((bs, a), c) = ((bs, told_connection "kvm_disconnect" v s a), c)

  unfoldable pub handle_kvm_websocket :
      String → Visit → Bridges → ApiServer st → (Bridges × ApiServer st) × Connected
  handle_kvm_websocket id v bs a = elim (st.get id a.sessions) [
    | none ↦ ((bs, a), turned_away 404 "session not found")
    | some s ↦
        if is_connected s.status
        then (let t : KvmSession = record s { last_activity = v.now } in
            ended_at_once v t
              (proxy_by_mode t v t.conn_mode bs (told_connection "kvm_connect" v t (save st t a))))
        else ((bs, a), turned_away 502 "session not connected")
  ]

  -- The end of a connection that was served.
  unfoldable pub connection_ends : KvmSession → Visit → ApiServer st → ApiServer st
  connection_ends s v a = told_connection "kvm_disconnect" v s (unregister_viewer s.id v.viewer a)
