-- ===== src/Ikvm/Tests.antt =====
-- The theorems on the protocol and the input at concrete messages.
use kvm_switcher.Ikvm.Frames.{
  read_update-bytes_of, resize, update, swapped, bytes_of, send_frame, Frame, read_update,
  send_vnc_frames,
}
use kvm_switcher.Prelude.{◌-◌, pos, some, arith, ◌≢◌, ◌≡◌, ◌∷◌, ◌++◌, [], refl, true, false, nat_eq}
use kvm_switcher.Ikvm.Bytes.{Bytes}
use kvm_switcher.Ikvm.VideoHeader.{VideoHeader, decode_aspeed_video_header}
use kvm_switcher.Prelude.{replicate}
use kvm_switcher.Ikvm.Input.Held.{told, read_vnc_input-held, held, key_messages, key_message}
use kvm_switcher.Ikvm.Input.Modifiers.{shift, bit}
use kvm_switcher.Ikvm.Stream.{read_loop-ends, read_message-send_message}
use kvm_switcher.Ikvm.Protocol.{IvtpHeader, encode}
use kvm_switcher.Ikvm.Client.{
  out_of_fuel, message, send_header, send_message_with_payload, read_loop, IvtpClient, read_message,
}
use kvm_switcher.Ikvm.Fragments.{receive-fragments, fragments, receive}
use kvm_switcher.Ikvm.Input.{
  read_vnc_input-NoneAllowed, pointer, handle_pointer_event, handle_input, read_vnc_input, has_bit,
  VncInput,
}

abbrev header : IvtpHeader
header = record { kind = 25; pkt_size = 70_000; status = 3 }

read_message-send_message_example :
    read_message (send_message_with_payload 21 0 (97 ∷ 98 ∷ []) ++ (7 ∷ []))
    ≡ message (record { kind = 21; pkt_size = 2; status = 0 }) (97 ∷ 98 ∷ []) (7 ∷ [])
read_message-send_message_example =
    read_message-send_message 21 0 (97 ∷ 98 ∷ []) (7 ∷ []) (omega arith) (omega arith) (omega arith)

abbrev client : IvtpClient
client = record {
  frame_buf = 9 ∷ [];
  on_video_frame = true;
  on_ctrl_msg = false;
  frames = [];
  ctrl_msgs = [];
  sent = [];
}

read_loop-ends_example : read_loop 20 (send_header 10 0 0 ++ send_header 8 0 0) client ≢ out_of_fuel
unfolding encode
read_loop-ends_example =
    read_loop-ends 20 (send_header 10 0 0 ++ send_header 8 0 0) client (omega arith)

-- A header of zeros, cut after its first bytes, and a body of three bytes.
abbrev first_bytes : Bytes
first_bytes = replicate 10 0

abbrev other_bytes : Bytes
other_bytes = replicate 76 0

receive-fragments_example :
    (h : VideoHeader) × ((decode_aspeed_video_header (replicate 86 0 ++ (1 ∷ 2 ∷ 3 ∷ [])) ≡ some h)
      × (receive (fragments 0 (first_bytes ∷ (other_bytes ++ (1 ∷ 2 ∷ [])) ∷ (3 ∷ []) ∷ [])) client
          ≡ record client {
            frame_buf = replicate 86 0 ++ (1 ∷ 2 ∷ 3 ∷ []);
            frames = (h, 1 ∷ 2 ∷ 3 ∷ []) ∷ [];
          }))
receive-fragments_example =
    receive-fragments (replicate 86 0) (1 ∷ 2 ∷ 3 ∷ []) first_bytes
      ((other_bytes ++ (1 ∷ 2 ∷ [])) ∷ (3 ∷ []) ∷ []) client refl refl (omega arith) refl

abbrev input : VncInput
input = record { connected = true; kbd_modifiers = 0; width = 800; height = 600; sent = [] }

read_vnc_input-NoneAllowed_example :
    read_vnc_input ((key_message 97 true, false) ∷ (5 ∷ 1 ∷ 0 ∷ 9 ∷ 0 ∷ 9 ∷ [], false) ∷ []) input
    ≡ input
read_vnc_input-NoneAllowed_example =
    read_vnc_input-NoneAllowed
      ((key_message 97 true, false) ∷ (5 ∷ 1 ∷ 0 ∷ 9 ∷ 0 ∷ 9 ∷ [], false) ∷ []) input
      (refl, (refl, tt))

read_vnc_input-held_example :
    has_bit
      (bit shift)
      (told (read_vnc_input (key_messages ((65505, true) ∷ (97, true) ∷ [])) input).sent)
    ≡ held shift ((65505, true) ∷ (97, true) ∷ []) (has_bit (bit shift) (told input.sent))
read_vnc_input-held_example =
    read_vnc_input-held shift ((65505, true) ∷ (97, true) ∷ []) input
      (omega arith, (omega arith, tt)) refl refl

-- A click in the middle of the screen.
click :
    (read_vnc_input ((5 ∷ 1 ∷ 1 ∷ 144 ∷ 1 ∷ 44 ∷ [], true) ∷ []) input).sent
    ≡ pointer 1 16383 16383 (pos 0) ∷ []
unfolding read_vnc_input handle_input handle_pointer_event
click = refl

abbrev frame : Frame
frame = record { width = 1; height = 1; framebuffer = 10 ∷ 20 ∷ 30 ∷ 255 ∷ [] }

-- The first frame is announced only; the second one is sent, with red and blue swapped.
frames_sent :
    send_vnc_frames (frame ∷ frame ∷ []) (2, 1)
    ≡ resize 1 1 ∷ update 1 1 (30 ∷ 20 ∷ 10 ∷ 255 ∷ []) ∷ []
unfolding send_vnc_frames send_frame swapped
frames_sent = refl

read_update-bytes_of_example :
    (read_update (bytes_of (update 800 600 (1 ∷ [])))
      ≡ some (record {
        message_type = 0;
        count = 1;
        x = 0;
        y = 0;
        width = 800;
        height = 600;
        encoding = 0;
        content = 1 ∷ [];
      }))
    × (read_update (bytes_of (resize 800 600))
        ≡ some (record {
          message_type = 0;
          count = 1;
          x = 0;
          y = 0;
          width = 800;
          height = 600;
          encoding = 4_294_967_296 - 223;
          content = [];
        }))
read_update-bytes_of_example = read_update-bytes_of 800 600 (1 ∷ []) (omega arith) (omega arith)
