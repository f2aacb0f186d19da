-- ===== src/Ikvm/Stream.antt =====
-- What is sent is what is read, and the reading loop comes to an end.
use kvm_switcher.Prelude.{
  ◌∙◌, [], ap, ◌∷◌, refl, length-append, drop-append, drop, take-append, append_assoc, length-drop,
  ◌+◌, some, ◌≡◌, zero, ◌++◌, suc, arith, ◌≢◌, ◌≤◌, length, ◌<◌, ℕ,
}
use kvm_switcher.Ikvm.Client.{
  payload_cut, too_large, panics, ends, header_cut, goes_on, handle_message, after, turn, LoopEnd,
  Handled, Read, message, send_message_with_payload, max_payload, out_of_fuel, IvtpClient,
  read_loop, read_message,
}
use kvm_switcher.Ikvm.Protocol.{decode-encode, encode, decode_ivtp_header, IvtpHeader}
use kvm_switcher.Ikvm.Bytes.{Bytes}

pub read_encoded :
    (h : IvtpHeader) (payload rest : Bytes)
    → decode_ivtp_header (encode h ++ (payload ++ rest)) ≡ some h
    → h.pkt_size ≡ length payload
    → length payload ≤ max_payload
    → read_message (encode h ++ (payload ++ rest)) ≡ message h payload rest
unfolding read_message encode
read_encoded h [] rest e n l = ground (arith, e, n)
read_encoded h (b ∷ bs) rest e n l =
    ground (
      arith,
      e,
      n,
      take-append (b ∷ bs) rest,
      drop-append (b ∷ bs) rest,
      length-append (b ∷ bs) rest,
    )

-- A message that fits the limit is read back as it was sent, and the bytes after it are left for
-- the next one.
pub read_message-send_message :
    (kind status : ℕ) (payload rest : Bytes)
    → kind < 65_536
    → status < 65_536
    → length payload ≤ max_payload
    → read_message (send_message_with_payload kind status payload ++ rest)
      ≡ message (record { kind = kind; pkt_size = length payload; status = status }) payload rest
unfolding read_message
read_message-send_message kind status payload rest k s l =
    let h : IvtpHeader = record { kind = kind; pkt_size = length payload; status = status } in
    let e : decode_ivtp_header (encode h ++ (payload ++ rest)) ≡ some h =
      decode-encode h (payload ++ rest) (record { kind = k; pkt_size = omega arith; status = s }) in
    ap
      (λ n.
        read_message
          ((encode (record { kind = kind; pkt_size = n; status = status }) ++ payload) ++ rest))
      (omega arith)
    ∙ ap read_message (append_assoc (encode h) payload rest)
    ∙ read_encoded h payload rest e refl l

-- What is left after a message is shorter by the header at least.
read_message-length :
    (bs rest p : Bytes) (h : IvtpHeader)
    → read_message bs ≡ message h p rest
    → length rest + 8 ≤ length bs
unfolding read_message decode_ivtp_header
read_message-length bs rest p h e =
    ground (arith, length-drop 8 bs, length-drop h.pkt_size (drop 8 bs))

after-ends :
    (r : Handled) (c : IvtpClient) (next : IvtpClient → LoopEnd)
    → ((d : IvtpClient) → next d ≢ out_of_fuel)
    → after r c next ≢ out_of_fuel
after-ends (goes_on d) c next h = h d
after-ends (ends e) c next h = ground arith
after-ends panics c next h = ground arith

turn-ends :
    (r : Read) (c : IvtpClient) (next : Bytes → IvtpClient → LoopEnd)
    → ((h : IvtpHeader) (p rest : Bytes)
        → r ≡ message h p rest
        → (d : IvtpClient) → next rest d ≢ out_of_fuel)
    → turn r c next ≢ out_of_fuel
turn-ends (message h p rest) c next n =
    after-ends (handle_message h p c) c (next rest) (n h p rest refl)
turn-ends header_cut c next n = ground arith
turn-ends too_large c next n = ground arith
turn-ends payload_cut c next n = ground arith

-- With more fuel than there are bytes the loop does not run out of it.
pub read_loop-ends :
    (fuel : ℕ) (bs : Bytes) (c : IvtpClient) → length bs < fuel → read_loop fuel bs c ≢ out_of_fuel
unfolding read_loop
read_loop-ends zero bs c h = ground arith
read_loop-ends (suc fuel) bs c l =
    turn-ends (read_message bs) c (read_loop fuel) (λ h p rest e d.
      read_loop-ends fuel rest d (omega (arith, read_message-length bs rest p h e)))
