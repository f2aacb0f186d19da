-- ===== src/Vnc/Gating.antt =====
-- internal/vnc/bridge.go: what the gating of a client's input stops, and the handshake with a board that goes away.
mod Tests
use kvm_switcher.Prelude.{
  ltb, suc, replicate, ◌||◌, length, ◌++◌, arith, ◌⊎◌, ◌==◌, ◌∷◌, if◌then◌else◌, [], Bool, ◌≡◌,
  List, ℕ, refl, nat_eq, true, false, none, some, ◌≢◌, ◌∙◌, ap, inl, inr, take, drop, take_all,
  drop_all, ◌-◌, ◌<◌, Bool-cases, append_nil,
}
use kvm_switcher.Vnc.{
  version, established, finish, authenticate, bmc_handshake, forwarded, choose, read_client_input,
  read_lax, vnc_encrypt, Handshake,
}
use kvm_switcher.Ikvm.Bytes.{Bytes}

-- A message that is no key or pointer event, or that is sent with control.
abbrev pub Passes : Bytes × Bool → Type 0
Passes ([], allowed) = Unit {0}
Passes (t ∷ bs, allowed) = ((t ≢ 4) × (t ≢ 5)) ⊎ (allowed ≡ true)

-- The second messages pass, and the first are the same with key and pointer events between them that are
-- sent without control.
pub data Adds : List (Bytes × Bool) → List (Bytes × Bool) → Type 0 where
  ended : Adds [] []
  sent :
      {ms ns : List (Bytes × Bool)} (m : Bytes × Bool)
      → Passes m
      → Adds ms ns
      → Adds (m ∷ ms) (m ∷ ns)
  stopped :
      {ms ns : List (Bytes × Bool)} (t : ℕ) (bs : Bytes)
      → (t ≡ 4) ⊎ (t ≡ 5)
      → Adds ms ns
      → Adds ((t ∷ bs, false) ∷ ms) ns

abbrev pub joined : List (Bytes × Bool) → Bytes
joined [] = []
joined ((bs, allowed) ∷ ms) = bs ++ joined ms

forwarded-Passes :
    (bs : Bytes) (allowed : Bool) → Passes (bs, allowed) → forwarded false allowed bs ≡ bs
unfolding forwarded
forwarded-Passes [] allowed p = refl
forwarded-Passes (t ∷ bs) allowed p = ground (arith, p)

-- Key and pointer events that are sent without control change nothing of what is written to the board, wherever
-- they stand between other messages: the others are written as without them, which is, if encodings are
-- not rewritten, one after the other and unchanged.
pub read_client_input-Adds :
    (filter : Bool) (ms ns : List (Bytes × Bool))
    → Adds ms ns
    → (read_client_input filter ms ≡ read_client_input filter ns)
      × (read_client_input false ms ≡ joined ns)
unfolding read_client_input forwarded
read_client_input-Adds filter _ _ ended = (refl, refl)
read_client_input-Adds filter _ _ (sent {ms} {ns} (bs, allowed) p h) =
    let (e, f) = read_client_input-Adds filter ms ns h in
    (
      ap (λ out. forwarded filter allowed bs ++ out) e,
      ap (λ out. forwarded false allowed bs ++ out) f
          ∙ ap (λ x. x ++ joined ns) (forwarded-Passes bs allowed p),
    )
read_client_input-Adds filter _ _ (stopped {ms} {ns} t bs k h) =
    let (e, f) = read_client_input-Adds filter ms ns h in
    (ground (arith, k, e), ground (arith, k, f))

abbrev pub has : ℕ → Bytes → Bool
has n [] = false
has n (t ∷ ts) = t == n || has n ts

-- The handshake chooses the password where it is offered, else no authentication where that is,
-- else what was chosen before, which is nothing at first.
choose-has :
    (ts : Bytes) (chosen : ℕ)
    → choose chosen ts ≡ (if has 2 ts then 2 else if has 1 ts then 1 else chosen)
unfolding choose
choose-has [] chosen = refl
choose-has (t ∷ ts) chosen = ground (arith, choose-has ts (if t == 1 then 1 else chosen))

read_lax-all : (bs : Bytes) → read_lax (length bs) bs ≡ (bs, [])
read_lax-all bs =
    let d : length bs - length bs ≡ 0 = omega arith in
    rw (read_lax, d, take_all bs, drop_all bs) (ap (λ x. (x, [])) (append_nil bs))

-- What the bridge has written: the version, and the password's answer to a challenge of zeros or no
-- authentication, and the shared flag.
abbrev pub answers : (Bytes → Bytes → Bytes) → Bytes → Bool → Bytes
answers des password true = (version ++ (2 ∷ vnc_encrypt des (replicate 16 0) password)) ++ (1 ∷ [])
answers des password false = version ++ (1 ∷ 1 ∷ [])

authenticate_cut :
    (des : Bytes → Bytes → Bytes) (password types : Bytes)
    → has 2 types || has 1 types ≡ true
    → authenticate des password (choose 0 types) []
      ≡ established (answers des password (has 2 types)) (replicate 24 0)
unfolding authenticate finish
authenticate_cut des password types o =
    let c = choose-has types 0 in
    elim (Bool-cases (has 2 types)) [
      | inl e ↦ let d : choose 0 types ≡ 2 = c ∙ rw e refl in rw (d, e) refl
      | inr e ↦
          let f : has 1 types ≡ true = ground (arith, o) in
          let d : choose 0 types ≡ 1 = c ∙ rw (e, f) refl in rw (d, e) refl
    ]

-- When the board closes the connection after its twelve bytes of version and any offer of types with the
-- password or no authentication among them, the handshake still succeeds, with a ServerInit of zeros: the
-- password is then answered for a challenge of zeros, and preferred where both are offered.
pub bmc_handshake_cut :
    (des : Bytes → Bytes → Bytes) (password greeting types : Bytes)
    → length greeting ≡ 12
    → has 2 types || has 1 types ≡ true
    → bmc_handshake des password (greeting ++ length types ∷ types)
      ≡ established (answers des password (has 2 types)) (replicate 24 0)
unfolding bmc_handshake
bmc_handshake_cut des password (a ∷ b ∷ c ∷ d ∷ e ∷ f ∷ g ∷ i ∷ j ∷ k ∷ l ∷ m ∷ []) [] h o =
    absurd (ground (arith, o))
bmc_handshake_cut des password (a ∷ b ∷ c ∷ d ∷ e ∷ f ∷ g ∷ i ∷ j ∷ k ∷ l ∷ m ∷ []) (t ∷ ts) h o =
    let long : ltb
          (suc (
            suc
              (suc (suc (suc (suc (suc (suc (suc (suc (suc (suc (suc (suc (length ts)))))))))))))))
          13
        ≡ false =
      ground arith in
    let some_types : (suc (length ts) == 0) ≡ false = ground arith in
    rw (long, some_types)
      (ap (λ r. authenticate des password (choose 0 r.0) r.1) (read_lax-all (t ∷ ts))
        ∙ authenticate_cut des password (t ∷ ts) o)
bmc_handshake_cut des password _ _ h o = absurd (omega (arith, h))
