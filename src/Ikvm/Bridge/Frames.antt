-- ===== src/Ikvm/Bridge/Frames.antt =====
-- internal/ikvm/bridge.go: the frames after a change of resolution.
use kvm_switcher.Prelude.{
  zero, inr, inl, refl, Bool-cases, nat_eq, ◌+◌, arith, length, false, leb, true, ◌||◌, ◌⊎◌,
  if◌then◌else◌, ltb, suc, [], ◌≢◌, ◌==◌, All, ◌≡◌, ◌<◌, ◌∷◌, not, List, ℕ,
}
use kvm_switcher.Ikvm.Bridge.{counted, notify, Bridge, take_frame}
use kvm_switcher.Ikvm.Decoder.State.{black, Decoder}

-- Frames that decode one after the other.
abbrev pub feed : List Decoder → Bridge → Bridge
feed [] b = b
feed (d ∷ ds) b = feed ds (take_frame d (counted b))

abbrev pub last_frame : Decoder → List Decoder → Decoder
last_frame d [] = d
last_frame d (e ∷ ds) = last_frame e ds

abbrev pub HasSize : ℕ → ℕ → Decoder → Type 0
HasSize w h d = (d.width ≡ w) × (d.height ≡ h)

-- A bridge that has the size `w` by `h` and `k` more frames to discard.
record Sized (w h k : ℕ) (b : Bridge) : Type 0 where
  width_is : b.width ≡ w
  height_is : b.height ≡ h
  left : b.res_change_countdown ≡ k

same_size :
    (w h k : ℕ) (d : Decoder) (b : Bridge)
    → HasSize w h d
    → Sized w h k b
    → (not (d.width == b.width) || not (d.height == b.height)) ≡ false
same_size w h k d b s z = ground (arith, z.width_is, z.height_is)

Sized-discards :
    (w h k : ℕ) (d : Decoder) (b : Bridge)
    → HasSize w h d
    → Sized w h (suc k) b
    → Sized w h k (take_frame d (counted b))
      × ((take_frame d (counted b)).decoder.framebuffer ≡ (λ _. black))
unfolding take_frame notify
Sized-discards w h k d b s z =
    let t : ltb 0 b.res_change_countdown ≡ true = ground (arith, z.left) in
    rw (same_size w h (suc k) d b s z, t)
      (record { width_is = s.0; height_is = s.1; left = omega (arith, z.left) }, refl)

Sized-shows :
    (w h : ℕ) (d : Decoder) (b : Bridge)
    → HasSize w h d
    → Sized w h 0 b
    → Sized w h 0 (take_frame d (counted b))
      × ((take_frame d (counted b)).decoder.framebuffer ≡ d.framebuffer)
unfolding take_frame notify
Sized-shows w h d b s z =
    let t : ltb 0 b.res_change_countdown ≡ false = ground (arith, z.left) in
    rw (same_size w h 0 d b s z, t)
      (record { width_is = s.0; height_is = s.1; left = z.left }, refl)

feed_shown :
    (w h : ℕ) (e : Decoder) (ds : List Decoder) (b : Bridge)
    → All (HasSize w h) ds
    → Sized w h 0 b
    → b.decoder.framebuffer ≡ e.framebuffer
    → (feed ds b).decoder.framebuffer ≡ (last_frame e ds).framebuffer
feed_shown w h e [] b s z f = f
feed_shown w h e (d ∷ ds) b (s, more) z f =
    let (z', f') = Sized-shows w h d b s z in
    feed_shown w h d ds (take_frame d (counted b)) more z' f'

feed_left :
    (w h k : ℕ) (e : Decoder) (ds : List Decoder) (b : Bridge)
    → All (HasSize w h) ds
    → Sized w h k b
    → b.decoder.framebuffer ≡ (λ _. black)
    → (feed ds b).decoder.framebuffer
      ≡ (if leb (length ds) k then (λ _. black) else (last_frame e ds).framebuffer)
feed_left w h k e [] b s z f = let t : leb 0 k ≡ true = ground arith in rw t f
feed_left w h zero e (d ∷ ds) b (s, more) z f =
    let (z', f') = Sized-shows w h d b s z in
    let t : leb (suc (length ds)) 0 ≡ false = ground arith in
    rw t (feed_shown w h d ds (take_frame d (counted b)) more z' f')
feed_left w h (suc k) e (d ∷ ds) b (s, more) z f =
    let (z', f') = Sized-discards w h k d b s z in
    let t : leb (suc (length ds)) (suc k) ≡ leb (length ds) k = ground arith in
    rw t (feed_left w h k d ds (take_frame d (counted b)) more z' f')

Sized-changes :
    (d : Decoder) (b : Bridge)
    → 0 < b.frame_count
    → (d.width ≢ b.width) ⊎ (d.height ≢ b.height)
    → Sized d.width d.height 2 (take_frame d (counted b))
      × ((take_frame d (counted b)).decoder.framebuffer ≡ (λ _. black))
unfolding take_frame notify
Sized-changes d b c n =
    let t : (not (d.width == b.width) || not (d.height == b.height)) ≡ true = ground arith in
    let u : ltb 1 (b.frame_count + 1) ≡ true = ground arith in
    elim (Bool-cases b.client) [
      | inl v ↦ rw (t, u, v) (record { width_is = refl; height_is = refl; left = refl }, refl)
      | inr v ↦ rw (t, u, v) (record { width_is = refl; height_is = refl; left = refl }, refl)
    ]

-- When the resolution changes after the first frame, that frame and the next two of the new size that
-- decode are shown black, and from the fourth on the screen is the frame that was decoded last.
pub feed-discards :
    (d : Decoder) (ds : List Decoder) (b : Bridge)
    → 0 < b.frame_count
    → (d.width ≢ b.width) ⊎ (d.height ≢ b.height)
    → All (HasSize d.width d.height) ds
    → (feed (d ∷ ds) b).decoder.framebuffer
      ≡ (if leb (length ds) 2 then (λ _. black) else (last_frame d ds).framebuffer)
feed-discards d ds b c n s =
    let (z, f) = Sized-changes d b c n in
    feed_left d.width d.height 2 d ds (take_frame d (counted b)) s z f
