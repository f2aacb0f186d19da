-- ===== src/Ikvm/Bridge.antt =====
-- internal/ikvm/bridge.go: the bridge between a board and the viewers of its screen. Each method is one step,
-- between which the board's frames, the end of its session and the ticks of the refresh come in any order.
-- The requests that the code sends from goroutines are written at once; `sent` is what the client wrote.
pub mod Frames
pub mod Lifecycle
mod Tests
use kvm_switcher.Prelude.{
  ◌&&◌, ◌&&◌, ◌*◌, some, nat_eq, ◌||◌, ◌-◌, ◌==◌, none, ◌++◌, String, not, [], ltb, ◌∷◌, List, true,
  Bool, if◌then◌else◌, Option, ◌+◌, false, ℕ,
}
use kvm_switcher.Ikvm.Decoder.Frame.{out_of_fuel, failed, finished, decode}
use kvm_switcher.Ikvm.Decoder.State.{black, new_decoder, Pixel, Decoder}
use kvm_switcher.Ikvm.Client.{send_message_with_payload, send_header}
use kvm_switcher.Ikvm.Bytes.{Bytes}
use kvm_switcher.Ikvm.VideoHeader.{VideoHeader}

-- `client` is whether there is one, `cancelled` whether the context is done, `ready` whether its channel is
-- closed. A subscriber is a channel with room for one signal, by a number that stands for the channel.
pub record Bridge : Type 0 where
  pub client : Bool
  pub sent : Bytes
  pub decoder : Decoder
  pub width : ℕ
  pub height : ℕ
  pub fb_dirty : Bool
  pub frame_ready : ℕ
  pub frame_subs : List (ℕ × Bool)
  pub kbd_modifiers : ℕ
  pub res_change_countdown : ℕ
  pub frame_count : ℕ
  pub cancelled : Bool
  pub running : Bool
  pub ready : Bool

abbrev pub new_bridge : Bridge
new_bridge = record {
  client = false;
  sent = [];
  decoder = new_decoder;
  width = 800;
  height = 600;
  fb_dirty = false;
  frame_ready = 0;
  frame_subs = [];
  kbd_modifiers = 0;
  res_change_countdown = 0;
  frame_count = 0;
  cancelled = false;
  running = false;
  ready = false;
}

-- The commands: an error or nothing, and the bridge.
abbrev pub commanded : Bytes → Bridge → Option String × Bridge
commanded bs b =
    if b.client then (none, record b { sent = b.sent ++ bs }) else (some "not connected", b)

unfoldable pub send_power_command : ℕ → Bridge → Option String × Bridge
send_power_command action b = commanded (send_header 35 0 action) b

unfoldable pub send_display_lock : Bool → Bridge → Option String × Bridge
send_display_lock lock b =
    commanded (send_message_with_payload 51 0 ((if lock then 1 else 0) ∷ [])) b

unfoldable pub reset_video : Bridge → Option String × Bridge
reset_video b = commanded (send_header 4 0 0 ++ (send_header 6 0 0 ++ send_header 5 0 0)) b

unfoldable pub set_mouse_mode : ℕ → Bridge → Option String × Bridge
set_mouse_mode mode b = commanded (send_header 28 0 mode) b

unfoldable pub set_keyboard_layout : Bytes → Bridge → Option String × Bridge
set_keyboard_layout layout b = commanded (send_message_with_payload 55 0 layout) b

unfoldable pub send_ipmi_command : Bytes → Bridge → Option String × Bridge
send_ipmi_command bytes b = commanded (send_message_with_payload 48 0 bytes) b

-- A request for the whole screen, if there is a client.
abbrev pub ask_refresh : Bridge → Bridge
ask_refresh b = if b.client then record b { sent = b.sent ++ send_header 5 0 0 } else b

-- `connects` is whether the new client's `Connect` succeeds.
unfoldable pub start : Bool → Bridge → Option String × Bridge
start connects b =
    let fresh : Bridge = record b { cancelled = false; client = true; sent = [] } in
    if b.running
    then (none, b)
    else if connects
    then (none, record fresh { running = true })
    else (some "IVTP connect", fresh)

-- What the goroutine of the session does at its end, and a tick of the refresh.
unfoldable pub session_ends : Bridge → Bridge
session_ends b = record b { cancelled = true }

unfoldable pub refresh_tick : Bridge → Bridge
refresh_tick b = if b.cancelled then b else ask_refresh b

unfoldable pub stop : Bridge → Bridge
stop b = if b.running then record b { cancelled = true; running = false; ready = false } else b

-- The start of `ServeWebSocketWithControl`, which waits until the bridge is ready, its context is done or half
-- a minute is over. `picks_ready` is which of the first two the `select` takes when both have come.
unfoldable pub serve_refused : Bool → Bridge → Option String
serve_refused picks_ready b =
    if not b.running
    then some "bridge not running"
    else if b.cancelled && not (b.ready && picks_ready)
    then some "bridge stopped before ready"
    else none

unfoldable pub subscribe_frames : ℕ → Bridge → Bridge
subscribe_frames ch b = record b { frame_subs = (ch, false) ∷ b.frame_subs }

abbrev pub without : ℕ → List (ℕ × Bool) → List (ℕ × Bool)
without ch [] = []
without ch ((c, s) ∷ subs) = let rest = without ch subs in if c == ch then rest else (c, s) ∷ rest

unfoldable pub unsubscribe_frames : ℕ → Bridge → Bridge
unsubscribe_frames ch b = record b { frame_subs = without ch b.frame_subs }

-- Every subscriber has a signal waiting.
abbrev pub signalled : List (ℕ × Bool) → List (ℕ × Bool)
signalled [] = []
signalled ((c, s) ∷ subs) = (c, true) ∷ signalled subs

-- The signals after a frame: the channel for all has room for four.
unfoldable pub notify : Bridge → Bridge
notify b = record b {
  fb_dirty = true;
  frame_ready = if ltb b.frame_ready 4 then b.frame_ready + 1 else b.frame_ready;
  frame_subs = signalled b.frame_subs;
  ready = true;
}

-- While frames after a change of resolution are left to discard, the framebuffer is cleared.
abbrev pub discard : Bridge → Bridge
discard b =
    if ltb 0 b.res_change_countdown
    then record b {
      decoder = record b.decoder { framebuffer = λ _. black };
      res_change_countdown = b.res_change_countdown - 1;
    }
    else b

-- A decoded frame; the frame is already counted.
unfoldable pub take_frame : Decoder → Bridge → Bridge
take_frame d b =
    let sized : Bridge = record b { decoder = d; width = d.width; height = d.height } in
    if not (d.width == b.width) || not (d.height == b.height)
    then notify (
        discard (
          ask_refresh
            (if ltb 1 b.frame_count then record sized { res_change_countdown = 3 } else sized)))
    else notify (discard sized)

abbrev pub counted : Bridge → Bridge
counted b = record b { frame_count = b.frame_count + 1 }

-- `onVideoFrame`; nothing where decoding does not end.
unfoldable pub on_video_frame : (ℕ → ℕ → ℕ → ℕ) → ℕ → VideoHeader → Bytes → Bridge → Option Bridge
on_video_frame aan fuel h bytes b = elim (decode aan fuel h bytes b.decoder) [
  | finished d ↦ some (take_frame d (counted b))
  | failed e d ↦ some (ask_refresh (record (counted b) { decoder = d }))
  | out_of_fuel ↦ none
]

-- `Screenshot`: the pixels that are encoded as a PNG, red and blue swapped and all opaque.
unfoldable pub screenshot : Bridge → Option (ℕ × ℕ × (ℕ → Pixel))
screenshot b =
    let d = b.decoder in
    if d.width == 0 || d.height == 0 || ltb d.pixels (d.width * d.height)
    then none
    else some (
      d.width,
      d.height,
      λ i. record {
        blue = (d.framebuffer i).blue;
        green = (d.framebuffer i).green;
        red = (d.framebuffer i).red;
        alpha = 255;
      },
    )
