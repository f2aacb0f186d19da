-- ===== src/Ikvm/Bridge/Tests.antt =====
-- The theorems on the bridge at concrete inputs.
use kvm_switcher.Prelude.{
  ◌&&◌, if◌then◌else◌, some, refl, false, inl, arith, none, [], ◌≡◌, ◌∷◌, true,
}
use kvm_switcher.Ikvm.Bridge.Lifecycle.{start-session_ends, ticks, subscribes, run}
use kvm_switcher.Ikvm.Bridge.{
  stop, refresh_tick, serve_refused, session_ends, new_bridge, Bridge, start,
}
use kvm_switcher.Ikvm.Bridge.Frames.{feed-discards, feed}
use kvm_switcher.Ikvm.Decoder.State.{black, new_decoder, Decoder}

abbrev shows_one : Decoder
shows_one = record new_decoder { width = 1024; height = 768 }

abbrev one_frame : Bridge
one_frame = record new_bridge { client = true; running = true; frame_count = 1 }

feed-discards_example :
    (feed (shows_one ∷ shows_one ∷ []) one_frame).decoder.framebuffer ≡ (λ _. black)
feed-discards_example =
    feed-discards shows_one (shows_one ∷ []) one_frame (omega arith) (inl (λ e. omega arith))
      ((refl, refl), tt)

abbrev gone : Bridge
gone = run (subscribes 7 ∷ ticks ∷ []) (session_ends one_frame)

start-session_ends_example :
    (start true gone ≡ (none, gone))
    × (refresh_tick gone ≡ gone)
    × (serve_refused true gone
        ≡ (if gone.ready && true then none else some "bridge stopped before ready"))
    × (start true (stop gone) ≡ (
      none,
      record gone { running = true; cancelled = false; client = true; sent = []; ready = false },
    ))
start-session_ends_example = start-session_ends (subscribes 7 ∷ ticks ∷ []) true true one_frame refl
