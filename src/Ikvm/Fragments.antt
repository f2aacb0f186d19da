-- ===== src/Ikvm/Fragments.antt =====
-- The fragments of a video frame are put together again.
use kvm_switcher.Prelude.{
  append_assoc, sym, append_nil, ◌∙◌, arith, true, ap, ◌≤◌, suc, length, ◌≡◌, ◌+◌, ◌++◌, ◌<◌, [],
  ◌∷◌, List, ℕ,
}
use kvm_switcher.Prelude.{refl, some, false, subst, drop, drop-append, length-append, ltb}
use kvm_switcher.Ikvm.Protocol.{video_header_size}
use kvm_switcher.Ikvm.VideoHeader.{VideoHeader, video_fields, decode_aspeed_video_header}
use kvm_switcher.Ikvm.Client.{deliver, assemble, IvtpClient, handle_video_fragment}
use kvm_switcher.Ikvm.Bytes.{u16-le16, le16, Bytes}

-- The payloads that carry a frame cut into chunks: they are numbered from `n`, and the last has bit 15.
abbrev pub fragments : ℕ → List Bytes → List Bytes
fragments n [] = []
fragments n (x ∷ []) = (le16 (n + 32_768) ++ x) ∷ []
fragments n (x ∷ y ∷ xs) = (le16 n ++ x) ∷ fragments (suc n) (y ∷ xs)

abbrev pub joined : List Bytes → Bytes
joined [] = []
joined (x ∷ xs) = x ++ joined xs

abbrev pub receive : List Bytes → IvtpClient → IvtpClient
receive [] c = c
receive (p ∷ ps) c = receive ps (handle_video_fragment p c)

assemble-le16 :
    (n : ℕ) (bs : Bytes) (c : IvtpClient)
    → n < 65_536
    → handle_video_fragment (le16 n ++ bs) c ≡ assemble n bs c
unfolding handle_video_fragment
assemble-le16 n bs c h = ap (λ k. assemble k bs c) (u16-le16 n h)

-- A fragment in the middle is appended; the last one is, and the frame is delivered.
assemble_middle :
    (n : ℕ) (bs : Bytes) (c : IvtpClient)
    → 0 < n
    → n < 32_768
    → assemble n bs c ≡ record c { frame_buf = c.frame_buf ++ bs }
assemble_middle n bs c p l = ground arith

assemble_last :
    (n : ℕ) (bs : Bytes) (c : IvtpClient)
    → 0 < n
    → n < 32_768
    → c.on_video_frame ≡ true
    → assemble (n + 32_768) bs c ≡ deliver (record c { frame_buf = c.frame_buf ++ bs })
assemble_last n bs c p l v = ground arith

-- The later fragments go on with the buffer, and the last one delivers it.
receive_later :
    (n : ℕ) (x : Bytes) (xs : List Bytes) (c : IvtpClient)
    → 0 < n
    → n + length (x ∷ xs) ≤ 32_768
    → c.on_video_frame ≡ true
    → receive (fragments n (x ∷ xs)) c
      ≡ deliver (record c { frame_buf = c.frame_buf ++ joined (x ∷ xs) })
receive_later n x [] c p l v =
    assemble-le16 (n + 32_768) x c (omega arith)
    ∙ assemble_last n x c p (omega arith) v
    ∙ ap (λ bs. deliver (record c { frame_buf = c.frame_buf ++ bs })) (sym (append_nil x))
receive_later n x (y ∷ xs) c p l v =
    let d : IvtpClient = record c { frame_buf = c.frame_buf ++ x } in
    ap (receive (fragments (suc n) (y ∷ xs)))
      (assemble-le16 n x c (omega arith) ∙ assemble_middle n x c p (omega arith))
    ∙ receive_later (suc n) y xs d (omega arith) (omega arith) v
    ∙ ap (λ bs. deliver (record c { frame_buf = bs }))
        (append_assoc c.frame_buf x (joined (y ∷ xs)))

received :
    (x : Bytes) (xs : List Bytes) (c : IvtpClient)
    → length (x ∷ xs) ≤ 32_768
    → c.on_video_frame ≡ true
    → receive (fragments 0 (x ∷ xs)) c ≡ deliver (record c { frame_buf = joined (x ∷ xs) })
received x [] c l v = assemble-le16 32_768 x c (omega arith) ∙ ground (arith, append_nil x)
received x (y ∷ xs) c l v =
    let d : IvtpClient = record c { frame_buf = x } in
    ap (receive (fragments 1 (y ∷ xs))) (assemble-le16 0 x c (omega arith) ∙ ground arith)
    ∙ receive_later 1 y xs d (omega arith) (omega arith) v

deliver-header :
    (header body : Bytes) (c : IvtpClient)
    → length header ≡ video_header_size
    → (h : VideoHeader) × ((decode_aspeed_video_header (header ++ body) ≡ some h)
        × (deliver (record c { frame_buf = header ++ body })
            ≡ record c { frame_buf = header ++ body; frames = (h, body) ∷ c.frames }))
unfolding decode_aspeed_video_header
deliver-header header body c l =
    let long : ltb (length (header ++ body)) video_header_size ≡ false =
      ground (arith, length-append header body, l) in
    let rest : drop video_header_size (header ++ body) ≡ body =
      subst (λ n. drop n (header ++ body) ≡ body) l (drop-append header body) in
    (
      video_fields (header ++ body),
      (
        rw (decode_aspeed_video_header, long) refl,
        rw (deliver, decode_aspeed_video_header, long)
            (ap
              (λ bs. record c {
                frame_buf = header ++ body;
                frames = (video_fields (header ++ body), bs) ∷ c.frames;
              })
              rest),
      ),
    )

-- However a frame of a whole header and a body is cut into at most 32768 chunks, when their fragments arrive
-- in order at a client with a callback, the callback gets the frame's header and body once, and nothing that
-- was in the buffer before.
pub receive-fragments :
    (header body x : Bytes) (xs : List Bytes) (c : IvtpClient)
    → length header ≡ video_header_size
    → joined (x ∷ xs) ≡ header ++ body
    → length (x ∷ xs) ≤ 32_768
    → c.on_video_frame ≡ true
    → (h : VideoHeader) × ((decode_aspeed_video_header (header ++ body) ≡ some h)
        × (receive (fragments 0 (x ∷ xs)) c
            ≡ record c { frame_buf = header ++ body; frames = (h, body) ∷ c.frames }))
receive-fragments header body x xs c s j l v =
    let (h, (e, d)) = deliver-header header body c s in
    (h, (e, received x xs c l v ∙ ap (λ bs. deliver (record c { frame_buf = bs })) j ∙ d))
