-- ===== src/Ikvm/Bridge/Lifecycle.antt =====
-- internal/ikvm/bridge.go: a bridge whose session with the board has ended.
use kvm_switcher.Prelude.{
  Bool-cases, inl, inr, ◌&&◌, if◌then◌else◌, some, arith, refl, false, none, [], true, ◌∷◌, ◌≡◌,
  List, Bool, ℕ,
}
use kvm_switcher.Ikvm.Bridge.{
  counted, notify, take_frame, unsubscribe_frames, stop, subscribe_frames, serve_refused,
  refresh_tick, session_ends, Bridge, start,
}
use kvm_switcher.Ikvm.Decoder.State.{Decoder}

-- What happens to a bridge, but for `Stop`.
pub data Event : Type 0 where
  starts : Bool → Event
  ends : Event
  ticks : Event
  subscribes : ℕ → Event
  unsubscribes : ℕ → Event
  decodes : Decoder → Event

abbrev pub happens : Event → Bridge → Bridge
happens (starts connects) b = (start connects b).1
happens ends b = session_ends b
happens ticks b = refresh_tick b
happens (subscribes ch) b = subscribe_frames ch b
happens (unsubscribes ch) b = unsubscribe_frames ch b
happens (decodes d) b = take_frame d (counted b)

abbrev pub run : List Event → Bridge → Bridge
run [] b = b
run (e ∷ es) b = run es (happens e b)

-- It counts as running, and its context is done.
pub record IsDead (b : Bridge) : Type 0 where
  pub runs : b.running ≡ true
  pub done : b.cancelled ≡ true

IsDead-happens : (e : Event) (b : Bridge) → IsDead b → IsDead (happens e b)
unfolding start session_ends refresh_tick subscribe_frames unsubscribe_frames take_frame notify
IsDead-happens (starts connects) b h = ground (arith, h)
IsDead-happens ends b h = ground (arith, h)
IsDead-happens ticks b h = ground (arith, h)
IsDead-happens (subscribes ch) b h = ground (arith, h)
IsDead-happens (unsubscribes ch) b h = ground (arith, h)
IsDead-happens (decodes d) b h = ground (arith, h)

run-IsDead : (es : List Event) (b : Bridge) → IsDead b → IsDead (run es b)
run-IsDead [] b h = h
run-IsDead (e ∷ es) b h = run-IsDead es (happens e b) (IsDead-happens e b h)

-- Once the session of a running bridge has ended, then whatever happens but a stop, it still counts as
-- running: a start of it succeeds and changes nothing, the refresh asks the board for nothing, and a viewer is
-- refused as if the bridge were stopped or, when a frame was decoded and the select takes that case, let in.
-- After a stop, a start that connects gives a running bridge with a new client and a context that is not done.
pub start-session_ends :
    (es : List Event) (connects picks_ready : Bool) (b : Bridge)
    → b.running ≡ true
    → let dead = run es (session_ends b) in
      (start connects dead ≡ (none, dead))
      × (refresh_tick dead ≡ dead)
      × (serve_refused picks_ready dead
          ≡ (if dead.ready && picks_ready then none else some "bridge stopped before ready"))
      × (start true (stop dead) ≡ (
        none,
        record dead { running = true; cancelled = false; client = true; sent = []; ready = false },
      ))
unfolding start session_ends serve_refused refresh_tick stop
start-session_ends es connects picks_ready b r =
    let dead = run es (session_ends b) in
    let h = run-IsDead es (session_ends b) (record { runs = r; done = refl }) in
    (
      rw h.runs refl,
      rw h.done refl,
      elim (Bool-cases (dead.ready && picks_ready)) [
        | inl e ↦ rw (h.runs, h.done, e) refl
        | inr e ↦ rw (h.runs, h.done, e) refl
      ],
      rw h.runs refl,
    )
