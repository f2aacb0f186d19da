-- ===== src/Ikvm/Client.antt =====
-- internal/ikvm/client.go: what a client sends, and the loop that reads the board's messages.
-- The connection is the list of the bytes that the board sends before it closes; `sent` is what the
-- client writes, which does not fail. `Stop` is not called while the loop runs.
use kvm_switcher.Prelude.{
  nat_eq, ◌/◌, take, drop, some, ◌&&◌, zero, ◌||◌, ltb, ◌%◌, length, [], ◌==◌, suc, List,
  if◌then◌else◌, Option, none, ◌++◌, ◌∷◌, String, Bool, ◌*◌, ℕ,
}
use kvm_switcher.Ikvm.Protocol.{
  video_header_size, ivtp_header_size, encode, decode_ivtp_header, IvtpHeader,
}
use kvm_switcher.Ikvm.VideoHeader.{VideoHeader, decode_aspeed_video_header}
use kvm_switcher.Ikvm.Bytes.{u16, Bytes}

pub record IvtpClient : Type 0 where
  pub frame_buf : Bytes
  pub on_video_frame : Bool
  pub on_ctrl_msg : Bool
  pub frames : List (VideoHeader × Bytes)
  pub ctrl_msgs : List (IvtpHeader × Bytes)
  pub sent : Bytes

abbrev pub send_header : ℕ → ℕ → ℕ → Bytes
send_header kind size status = encode (record { kind = kind; pkt_size = size; status = status })

abbrev pub send_message_with_payload : ℕ → ℕ → Bytes → Bytes
send_message_with_payload kind status payload =
    encode (record { kind = kind; pkt_size = length payload % 4_294_967_296; status = status })
    ++ payload

abbrev pub max_payload : ℕ
max_payload = 10 * 1024 * 1024

-- A message and the bytes after it, or an error.
pub data Read : Type 0 where
  message : IvtpHeader → Bytes → Bytes → Read
  header_cut too_large payload_cut : Read

-- `io.ReadFull`
abbrev pub read_full : ℕ → Bytes → Option (Bytes × Bytes)
read_full n bs = if ltb (length bs) n then none else some (take n bs, drop n bs)

abbrev pub read_payload : IvtpHeader → Bytes → Read
read_payload h bs =
    if h.pkt_size == 0
    then message h [] bs
    else if ltb max_payload h.pkt_size
    then too_large
    else if ltb (length bs) h.pkt_size
    then payload_cut
    else message h (take h.pkt_size bs) (drop h.pkt_size bs)

unfoldable pub read_message : Bytes → Read
read_message bs = elim (decode_ivtp_header bs) [
  | none ↦ header_cut
  | some h ↦ read_payload h (drop ivtp_header_size bs)
]

-- The end of a frame: it goes to the callback with the bytes after its header.
abbrev pub deliver : IvtpClient → IvtpClient
deliver c = elim (decode_aspeed_video_header c.frame_buf) [
  | none ↦ c
  | some h ↦ record c { frames = (h, drop video_header_size c.frame_buf) ∷ c.frames }
]

-- A fragment's number and data. The low 15 bits are 0 in the first fragment of a frame; bit 15 is
-- set in the last.
abbrev pub assemble : ℕ → Bytes → IvtpClient → IvtpClient
assemble number fragment c =
    let d : IvtpClient = record c {
      frame_buf = (if number % 32_768 == 0 then [] else c.frame_buf) ++ fragment;
    } in
    if number / 32_768 % 2 == 1 && c.on_video_frame then deliver d else d

unfoldable pub handle_video_fragment : Bytes → IvtpClient → IvtpClient
handle_video_fragment (a ∷ b ∷ fragment) c = assemble (u16 a b) fragment c
handle_video_fragment (a ∷ []) c = c
handle_video_fragment [] c = c

-- What a message comes to: the loop goes on, ends with an error, or panics at an empty payload.
pub data Handled : Type 0 where
  goes_on : IvtpClient → Handled
  ends : String → Handled
  panics : Handled

abbrev pub write : Bytes → IvtpClient → IvtpClient
write bs c = record c { sent = c.sent ++ bs }

-- `SendHeader(IVTPPowerStatus)`, the query of the display lock, and `SendHeader(IVTPGetUserMacro)`.
abbrev pub after_validation : Bytes
after_validation =
    send_header 34 0 0 ++ (send_message_with_payload 51 0 (2 ∷ []) ++ send_header 40 0 0)

abbrev pub on_validated : Bytes → IvtpClient → Handled
on_validated [] c = panics
on_validated (result ∷ more) c =
    if result == 0
    then ends "session validation failed: invalid session"
    else goes_on (write after_validation c)

-- The types that the loop only logs.
abbrev pub is_informational : ℕ → Bool
is_informational n =
    n == 9
    || n == 10
    || n == 20
    || n == 34
    || n == 13
    || n == 14
    || n == 15
    || n == 17
    || n == 32
    || n == 50
    || n == 4099
    || n == 37
    || n == 40
    || n == 53
    || n == 56

-- The switch of the loop.
unfoldable pub handle_message : IvtpHeader → Bytes → IvtpClient → Handled
handle_message h payload c =
    if h.kind == 25
    then goes_on (handle_video_fragment payload c)
    else if h.kind == 19
    then on_validated payload c
    else if h.kind == 8
    then ends "session stopped by BMC"
    else if h.kind == 22
    then ends "max KVM sessions reached"
    else if h.kind == 39
    then goes_on (write (send_header 11 0 0) c)
    else if is_informational h.kind
    then goes_on c
    else goes_on (if c.on_ctrl_msg then record c { ctrl_msgs = (h, payload) ∷ c.ctrl_msgs } else c)

-- How the loop ends: the client as it is then, and an error; or a panic.
pub data LoopEnd : Type 0 where
  read_error : Read → IvtpClient → LoopEnd
  stopped_by : String → IvtpClient → LoopEnd
  panicked : IvtpClient → LoopEnd
  out_of_fuel : LoopEnd

-- What follows a message, and one turn of the loop; `next` is the loop on the bytes that are left.
abbrev pub after : Handled → IvtpClient → (IvtpClient → LoopEnd) → LoopEnd
after (goes_on d) c next = next d
after (ends e) c next = stopped_by e c
after panics c next = panicked c

abbrev pub turn : Read → IvtpClient → (Bytes → IvtpClient → LoopEnd) → LoopEnd
turn (message h payload rest) c next = after (handle_message h payload c) c (next rest)
turn header_cut c next = read_error header_cut c
turn too_large c next = read_error too_large c
turn payload_cut c next = read_error payload_cut c

-- `fuel` bounds the messages that are read.
unfoldable pub read_loop : ℕ → Bytes → IvtpClient → LoopEnd
read_loop zero bs c = out_of_fuel
read_loop (suc fuel) bs c = turn (read_message bs) c (read_loop fuel)

-- The window of the last four bytes that `readTunnelResponse` keeps.
pub record Trail : Type 0 where
  pub a : ℕ
  pub b : ℕ
  pub c : ℕ
  pub d : ℕ

abbrev pub ends_headers : Trail → Bool
ends_headers t = t.a == 13 && t.b == 10 && t.c == 13 && t.d == 10

pub data Tunnel : Type 0 where
  response : Bytes → Bytes → Tunnel
  cut_short : Bytes → Tunnel
  too_long : Bytes → Tunnel

-- From `left` bytes before the limit on, with the bytes read so far.
unfoldable pub read_tunnel_from : ℕ → Trail → Bytes → Bytes → Tunnel
read_tunnel_from zero t got bs = too_long got
read_tunnel_from (suc left) t got [] = cut_short got
read_tunnel_from (suc left) t got (x ∷ bs) =
    let next : Trail = record { a = t.b; b = t.c; c = t.d; d = x } in
    let rest = read_tunnel_from left next (got ++ (x ∷ [])) bs in
    if ends_headers next then response (got ++ (x ∷ [])) bs else rest

unfoldable pub read_tunnel_response : Bytes → Tunnel
read_tunnel_response bs = read_tunnel_from 4096 (record { a = 0; b = 0; c = 0; d = 0 }) [] bs
