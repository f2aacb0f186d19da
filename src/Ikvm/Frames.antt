-- ===== src/Ikvm/Frames.antt =====
-- internal/ikvm/vnc.go: what is sent to a viewer, the first message of the server (`buildServerInit`),
-- the frames and the changes of the screen's size. The framebuffer is BGRA, a viewer gets RGBA.
use kvm_switcher.Prelude.{
  none, ◌-◌, some, ◌<◌, Option, not, zero, ap, ltb, suc, ◌||◌, take, ◌++◌, ◌==◌, [], arith,
  if◌then◌else◌, ◌≡◌, ◌*◌, ◌∷◌, length, ℕ, List, refl, nat_eq,
}
use kvm_switcher.Ikvm.Bytes.{u16-le16, u32, u16, be32, be16, Bytes}

unfoldable pub build_server_init : ℕ → ℕ → Bytes
build_server_init width height =
    be16 width
    ++ be16 height
    ++ (32 ∷ 24 ∷ 0 ∷ 1 ∷ [])
    ++ be16 255
    ++ be16 255
    ++ be16 255
    ++ (0 ∷ 8 ∷ 16 ∷ 0 ∷ 0 ∷ 0 ∷ [])
    ++ be32 4
    ++ (105 ∷ 75 ∷ 86 ∷ 77 ∷ [])

unfoldable pub build_framebuffer_update : ℕ → ℕ → ℕ → ℕ → Bytes → Bytes
build_framebuffer_update x y w h pixels =
    (0 ∷ 0 ∷ []) ++ be16 1 ++ be16 x ++ be16 y ++ be16 w ++ be16 h ++ be32 0 ++ pixels

unfoldable pub build_desktop_resize : ℕ → ℕ → Bytes
build_desktop_resize w h =
    (0 ∷ 0 ∷ []) ++ be16 1 ++ be16 0 ++ be16 0 ++ be16 w ++ be16 h ++ be32 4_294_967_073

-- The loop over the pixels, four bytes at a time.
unfoldable pub swapped : Bytes → Bytes
swapped (b ∷ g ∷ r ∷ a ∷ bs) = r ∷ g ∷ b ∷ a ∷ swapped bs
swapped (b ∷ g ∷ r ∷ []) = []
swapped (b ∷ g ∷ []) = []
swapped (b ∷ []) = []
swapped [] = []

-- A decoded frame.
pub record Frame : Type 0 where
  pub width : ℕ
  pub height : ℕ
  pub framebuffer : Bytes

-- What a viewer is sent: the size and the pixels of a frame, or a new size.
pub data Sent : Type 0 where
  update : ℕ → ℕ → Bytes → Sent
  resize : ℕ → ℕ → Sent

abbrev pub bytes_of : Sent → Bytes
bytes_of (update w h pixels) = build_framebuffer_update 0 0 w h pixels
bytes_of (resize w h) = build_desktop_resize w h

-- One turn of the loop of `sendVNCFrames`, on the size that the viewer was told last: the new size
-- and what is sent.
unfoldable pub send_frame : Frame → ℕ × ℕ → (ℕ × ℕ) × List Sent
send_frame f (last_w, last_h) =
    if f.width == 0 || f.height == 0 || ltb (length f.framebuffer) (f.width * f.height * 4)
    then ((last_w, last_h), [])
    else if not (f.width == last_w) || not (f.height == last_h)
    then ((f.width, f.height), resize f.width f.height ∷ [])
    else (
      (last_w, last_h),
      update f.width f.height (swapped (take (f.width * f.height * 4) f.framebuffer)) ∷ [],
    )

-- The loop over the frames, from the size that the viewer was told first.
unfoldable pub send_vnc_frames : List Frame → ℕ × ℕ → List Sent
send_vnc_frames [] last = []
send_vnc_frames (f ∷ fs) last =
    let (next, sent) = send_frame f last in sent ++ send_vnc_frames fs next

-- A viewer that takes the messages in order: every frame has the size that it was told last, and as
-- many bytes of pixels as that size takes.
abbrev pub Fitting : ℕ × ℕ → List Sent → Type 0
Fitting (w, h) [] = Unit {0}
Fitting (w, h) (update u v pixels ∷ ss) =
    ((u ≡ w) × (v ≡ h) × (length pixels ≡ w * h * 4)) × Fitting (w, h) ss
Fitting (w, h) (resize u v ∷ ss) = Fitting (u, v) ss

-- A whole framebuffer that is swapped twice is the same.
pub swapped_twice : (n : ℕ) (bs : Bytes) → length bs ≡ n * 4 → swapped (swapped bs) ≡ bs
unfolding swapped
swapped_twice zero [] h = refl
swapped_twice zero (b ∷ bs) h = ground arith
swapped_twice (suc n) (b ∷ g ∷ r ∷ a ∷ bs) h =
    ap (λ cs. b ∷ g ∷ r ∷ a ∷ cs) (swapped_twice n bs (omega (arith, h)))
swapped_twice (suc n) (b ∷ g ∷ r ∷ []) h = absurd (omega (arith, h))
swapped_twice (suc n) (b ∷ g ∷ []) h = absurd (omega (arith, h))
swapped_twice (suc n) (b ∷ []) h = absurd (omega (arith, h))
swapped_twice (suc n) [] h = absurd (omega (arith, h))

-- A FramebufferUpdate of one rectangle, as a viewer reads it (RFC 6143, 7.6.1).
pub record Rectangle : Type 0 where
  pub message_type : ℕ
  pub count : ℕ
  pub x : ℕ
  pub y : ℕ
  pub width : ℕ
  pub height : ℕ
  pub encoding : ℕ
  pub content : Bytes

abbrev pub read_update : Bytes → Option Rectangle
read_update (t ∷ _ ∷ c1 ∷ c0 ∷ x1 ∷ x0 ∷ y1 ∷ y0 ∷ w1 ∷ w0 ∷ h1 ∷ h0 ∷ e3 ∷ e2 ∷ e1 ∷ e0 ∷ bs) =
    some (record {
      message_type = t;
      count = u16 c0 c1;
      x = u16 x0 x1;
      y = u16 y0 y1;
      width = u16 w0 w1;
      height = u16 h0 h1;
      encoding = u32 e0 e1 e2 e3;
      content = bs;
    })
read_update _ = none

-- A viewer reads every message as it is meant: a frame as one raw rectangle (encoding 0) at the
-- origin with its pixels, a new size as one rectangle of the DesktopSize encoding (-223).
pub read_update-bytes_of :
    (w h : ℕ) (pixels : Bytes)
    → w < 65_536
    → h < 65_536
    → (read_update (bytes_of (update w h pixels))
        ≡ some (record {
          message_type = 0;
          count = 1;
          x = 0;
          y = 0;
          width = w;
          height = h;
          encoding = 0;
          content = pixels;
        }))
      × (read_update (bytes_of (resize w h))
          ≡ some (record {
            message_type = 0;
            count = 1;
            x = 0;
            y = 0;
            width = w;
            height = h;
            encoding = 4_294_967_296 - 223;
            content = [];
          }))
unfolding build_framebuffer_update build_desktop_resize
read_update-bytes_of w h pixels a b =
    (ground (arith, u16-le16 w a, u16-le16 h b), ground (arith, u16-le16 w a, u16-le16 h b))
