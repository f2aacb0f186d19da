-- ===== src/Api/Wss/Stale.antt =====
-- internal/api/websocket.go: the last viewer of a proxy whose backend died.
use kvm_switcher.Api.Wss.{
  closed, close_all, serve_viewer, stop_wss, leave, make_proxy, ensure_wss_proxy, backend_ends,
  connect_viewer, WssSession, WssClient,
}
use kvm_switcher.Prelude.{
  List, ap, sym, subst, ◌≢◌, string_eq, lookup-erase, erase, ◌∙◌, lookup-insert, beq_iff, none,
  false, remove_first, refl, nat_eq, arith, ◌==◌, true, ◌<◌, some, ◌≡◌, lookup, String, ℕ, [], ◌∷◌,
}
use kvm_switcher.Viewers.{add}

-- The session has no proxy; the one of that number is closed, and so is the connection.
abbrev pub IsCutOff : ℕ → String → WssClient → WssSession → Type 0
IsCutOff q other k t =
    (t.current ≡ none)
    × ((t.proxies q).open_backend ≡ false)
    × (lookup other t.connections ≡ some (record k { is_open = false }))

close_all-lookup :
    (other : String) (k : WssClient) (conns : List (String × WssClient))
    → lookup other conns ≡ some k
    → lookup other (close_all (other ∷ []) conns) ≡ some (record k { is_open = false })
close_all-lookup other k conns h =
    let o : (other == other) ≡ true = (beq_iff other other).1 refl in
    rw (close_all, closed, h) (lookup-insert other other _ conns ∙ rw o refl)

leave-stops_other :
    (conn other : String) (c k : WssClient) (q : ℕ) (t : WssSession)
    → lookup conn t.connections ≡ some c
    → (t.proxies c.proxy).clients ≡ conn ∷ []
    → t.current ≡ some q
    → c.proxy ≢ q
    → (t.proxies q).clients ≡ other ∷ []
    → lookup other (erase conn t.connections) ≡ some k
    → IsCutOff q other k (leave conn t)
unfolding leave stop_wss remove_first
leave-stops_other conn other c k q t l only cur ne theirs there =
    let i : (conn == conn) ≡ true = (beq_iff conn conn).1 refl in
    let j : (q == q) ≡ true = ground arith in
    let m : (q == c.proxy) ≡ false = ground arith in
    rw (leave, l, only, i, stop_wss, cur, j, m, theirs)
      (refl, refl, close_all-lookup other k (erase conn t.connections) there)

module _ (conn : String) (c : WssClient) (s : WssSession) (l : lookup conn s.connections ≡ some c)
    (cur : s.current ≡ some c.proxy) (only : (s.proxies c.proxy).clients ≡ conn ∷ [])
    (old : c.proxy < s.made) where
  -- The session once its backend died, and as another viewer is registered.
  abbrev joined : String → String → String → ℕ → WssSession
  joined viewer name ip now = record (backend_ends c.proxy s) {
    registry = add viewer name ip now s.registry;
  }

  ensure_joined :
      (viewer name ip : String) (now : ℕ)
      → ensure_wss_proxy true (joined viewer name ip now)
        ≡ make_proxy true (joined viewer name ip now)
  unfolding ensure_wss_proxy backend_ends
  ensure_joined viewer name ip now =
      let i : (c.proxy == c.proxy) ≡ true = ground arith in rw (ensure_wss_proxy, cur, i) refl

  -- The session with that viewer.
  abbrev arrived : String → String → String → String → ℕ → WssSession
  arrived other viewer name ip now =
      serve_viewer other viewer (make_proxy true (joined viewer name ip now))

  connect_arrived :
      (other viewer name ip : String) (now : ℕ)
      → connect_viewer other viewer name ip now true (backend_ends c.proxy s)
        ≡ arrived other viewer name ip now
  unfolding connect_viewer backend_ends
  connect_arrived other viewer name ip now =
      ap (serve_viewer other viewer) (ensure_joined viewer name ip now)

  -- A viewer is the only client of the session's proxy, whose backend dies; another viewer comes, and gets a
  -- new proxy; and the first viewer leaves: then the session has no proxy any more, the new one's backend is
  -- closed, and the other viewer is disconnected.
  pub leave-connect_viewer :
      (other viewer name ip : String) (now : ℕ)
      → conn ≢ other
      → IsCutOff s.made other
          (record { viewer = viewer; proxy = s.made; is_open = true; received = [] })
          (leave conn (connect_viewer other viewer name ip now true (backend_ends c.proxy s)))
  unfolding backend_ends
  leave-connect_viewer other viewer name ip now ne =
      let d : (conn == other) ≡ false = ground (arith, beq_iff conn other) in
      let e : (other == conn) ≡ false = ground (arith, beq_iff other conn) in
      let o : (other == other) ≡ true = (beq_iff other other).1 refl in
      let k : (s.made == s.made) ≡ true = ground arith in
      let m : (c.proxy == s.made) ≡ false = ground arith in
      let n : (c.proxy == c.proxy) ≡ true = ground arith in
      let t : WssSession = arrived other viewer name ip now in
      subst
        (λ u.
          IsCutOff s.made other
            (record { viewer = viewer; proxy = s.made; is_open = true; received = [] })
            (leave conn u))
        (sym (connect_arrived other viewer name ip now))
        (leave-stops_other conn other c
          (record { viewer = viewer; proxy = s.made; is_open = true; received = [] }) s.made t
          (lookup-insert other conn _ s.connections ∙ rw (e, l) refl) (rw (m, n) only) refl
          (ground arith) (rw k refl)
          (lookup-erase conn other t.connections
            ∙ rw d (lookup-insert other other _ s.connections ∙ rw o refl)))
