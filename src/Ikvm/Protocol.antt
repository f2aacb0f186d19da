-- ===== src/Ikvm/Protocol.antt =====
-- internal/ikvm/protocol.go: the packet header and the video header.
use kvm_switcher.Ikvm.Bytes.{u32, at, u32-le32, u16, u16-le16, le32, le16, Bytes, AreBytes}
use kvm_switcher.Prelude.{
  none, arith, length, ltb, some, [], if◌then◌else◌, ◌≡◌, ◌∷◌, Option, ◌++◌, ◌<◌, ℕ,
}

pub record IvtpHeader : Type 0 where
  pub kind : ℕ
  pub pkt_size : ℕ
  pub status : ℕ

abbrev pub ivtp_header_size : ℕ
ivtp_header_size = 8

abbrev pub video_header_size : ℕ
video_header_size = 86

-- The fields are a uint16, a uint32 and a uint16.
unfoldable pub encode : IvtpHeader → Bytes
encode h = le16 h.kind ++ le32 h.pkt_size ++ le16 h.status

unfoldable pub decode_ivtp_header : Bytes → Option IvtpHeader
decode_ivtp_header bs =
    if ltb (length bs) ivtp_header_size
    then none
    else some (record {
      kind = u16 (at bs 0) (at bs 1);
      pkt_size = u32 (at bs 2) (at bs 3) (at bs 4) (at bs 5);
      status = u16 (at bs 6) (at bs 7);
    })

-- The fields of a header are in their ranges.
pub record IsPacket (h : IvtpHeader) : Type 0 where
  pub kind : h.kind < 65_536
  pub pkt_size : h.pkt_size < 4_294_967_296
  pub status : h.status < 65_536

-- A header that is encoded and decoded again, whatever follows it, is the same.
pub decode-encode :
    (h : IvtpHeader) (rest : Bytes) → IsPacket h → decode_ivtp_header (encode h ++ rest) ≡ some h
unfolding decode_ivtp_header encode
decode-encode h rest p =
    ground
      (arith, u16-le16 h.kind p.kind, u32-le32 h.pkt_size p.pkt_size, u16-le16 h.status p.status)

-- Every eight bytes are the encoding of the header that they decode to.
pub encode-decode :
    (a b c d e f g i : ℕ) (h : IvtpHeader)
    → AreBytes (a ∷ b ∷ c ∷ d ∷ e ∷ f ∷ g ∷ i ∷ [])
    → decode_ivtp_header (a ∷ b ∷ c ∷ d ∷ e ∷ f ∷ g ∷ i ∷ []) ≡ some h
    → encode h ≡ a ∷ b ∷ c ∷ d ∷ e ∷ f ∷ g ∷ i ∷ []
unfolding decode_ivtp_header encode
encode-decode a b c d e f g i h k r = ground arith
