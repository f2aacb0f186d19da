-- ===== src/Vnc.antt =====
-- internal/vnc/bridge.go: the bridge to boards that speak VNC themselves. What the board sends is a list
-- of bytes; writing to it does not fail. DES is an argument.
pub mod Gating
use kvm_switcher.Prelude.{
  leb, not, zero, ◌&&◌, ◌/◌, ◌-◌, length, replicate, ◌||◌, ◌+◌, ltb, ◌++◌, ◌%◌, [], ◌==◌, map,
  if◌then◌else◌, List, drop, ◌∷◌, ◌*◌, take, suc, String, Bool, ℕ, nat_eq, true, false, none, some,
}
use kvm_switcher.Ikvm.Bytes.{be32, be16, at, u32, Bytes}

unfoldable pub rewrite_set_encodings : Bytes
rewrite_set_encodings = (2 ∷ 0 ∷ []) ++ be16 3 ++ be32 0 ++ be32 1 ++ be32 (4_294_967_296 - 223)

-- One turn of `readClientInput`: what is written to the board.
unfoldable pub forwarded : Bool → Bool → Bytes → Bytes
forwarded filter_encodings allowed [] = []
forwarded filter_encodings allowed (t ∷ bs) =
    if (t == 4 || t == 5) && not allowed
    then []
    else if filter_encodings && t == 2 && leb 4 (length (t ∷ bs))
    then rewrite_set_encodings
    else t ∷ bs

-- The loop until the client's connection ends.
unfoldable pub read_client_input : Bool → List (Bytes × Bool) → Bytes
read_client_input filter_encodings [] = []
read_client_input filter_encodings ((bs, allowed) ∷ more) =
    forwarded filter_encodings allowed bs ++ read_client_input filter_encodings more

-- The choice of a security type: 2 (a password) at once, else 1 (none), else 0.
unfoldable pub choose : ℕ → Bytes → ℕ
choose chosen [] = chosen
choose chosen (t ∷ ts) =
    let rest = choose (if t == 1 then 1 else chosen) ts in if t == 2 then 2 else rest

-- `io.ReadFull` whose error is not looked at: what is missing stays 0.
abbrev pub read_lax : ℕ → Bytes → Bytes × Bytes
read_lax n bs = (take n bs ++ replicate (n - length bs) 0, drop n bs)

abbrev pub reversed_from : ℕ → ℕ → ℕ → ℕ
reversed_from zero r b = r
reversed_from (suc n) r b = reversed_from n (r * 2 % 256 + b % 2) (b / 2)

unfoldable pub reverse_bits : ℕ → ℕ
reverse_bits b = reversed_from 8 0 b

-- The eight bytes of the key: the password, cut or filled with 0, with its bits reversed.
unfoldable pub key_of : Bytes → Bytes
key_of password = map reverse_bits (take 8 password ++ replicate (8 - length password) 0)

unfoldable pub vnc_encrypt : (Bytes → Bytes → Bytes) → Bytes → Bytes → Bytes
vnc_encrypt des challenge password =
    des (key_of password) (take 8 challenge) ++ des (key_of password) (drop 8 challenge)

-- What the handshake comes to: an error, or what was written to the board and the `ServerInit`
-- that is kept for the clients.
pub data Handshake : Type 0 where
  refused : String → Handshake
  established : Bytes → Bytes → Handshake

abbrev pub be_u32 : Bytes → ℕ
be_u32 bs = u32 (at bs 3) (at bs 2) (at bs 1) (at bs 0)

abbrev pub version : Bytes
version = 82 ∷ 70 ∷ 66 ∷ 32 ∷ 48 ∷ 48 ∷ 51 ∷ 46 ∷ 48 ∷ 48 ∷ 56 ∷ 10 ∷ []

-- The end, from the result of the authentication on; `written` is what was written so far.
unfoldable pub finish : Bytes → Bytes → Handshake
finish written bs =
    let (result, bs1) = read_lax 4 bs in
    let (header, bs2) = read_lax 24 bs1 in
    let (name, bs3) = read_lax (be_u32 (drop 20 header)) bs2 in
    if be_u32 result == 0
    then established (written ++ (1 ∷ [])) (header ++ name)
    else refused "auth failed"

-- With the chosen security type.
unfoldable pub authenticate : (Bytes → Bytes → Bytes) → Bytes → ℕ → Bytes → Handshake
authenticate des password chosen bs =
    let (challenge, rest) = read_lax 16 bs in
    if chosen == 0
    then refused "no supported auth type"
    else if chosen == 2
    then finish (version ++ (2 ∷ vnc_encrypt des challenge password)) rest
    else finish (version ++ (chosen ∷ [])) bs

unfoldable pub bmc_handshake : (Bytes → Bytes → Bytes) → Bytes → Bytes → Handshake
bmc_handshake des password bs =
    if ltb (length bs) 13
    then refused "read error"
    else (let (types, rest) = read_lax (at bs 12) (drop 13 bs) in
        if at bs 12 == 0
        then refused "rejected"
        else authenticate des password (choose 0 types) rest)

-- The `ServerInit` for a client; the name "Intel(r) AMT KVM" takes the place of the board's.
unfoldable pub client_server_init : Bool → Bytes → Bytes
client_server_init rewrite_name server_init =
    if rewrite_name
    then take 20 server_init
      ++ be32 16
      ++ (73 ∷ 110 ∷ 116 ∷ 101 ∷ 108 ∷ 40 ∷ 114 ∷ 41 ∷ 32 ∷ 65 ∷ 77 ∷ 84 ∷ 32 ∷ 75 ∷ 86 ∷ 77 ∷ [])
    else server_init
