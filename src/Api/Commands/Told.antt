-- ===== src/Api/Commands/Told.antt =====
-- internal/api/handlers.go: what the command handlers do to the bridge and to the audit log.
use kvm_switcher.Api.Commands.Asked.{
  soft_reset, japanese, spanish, reset, german, cycle, on, absolute, french, Resets, english,
  relative, Locks, off, Carries, LaysOut, Powers, Points, Asked,
}
use kvm_switcher.Api.Commands.{
  layout_code, kvm_keyboard_layout, Commander, kvm_ipmi_command, kvm_mouse_mode, kvm_reset_video,
  mouse_code, ipmi_of, kvm_display_lock, rejected, done, told, commanded_on, handled, CommandAnswer,
  Bridges,
}
use kvm_switcher.Api.Commands.Power.{power_by, power_code}
use kvm_switcher.Ikvm.Bridge.{
  set_keyboard_layout, reset_video, send_display_lock, send_ipmi_command, set_mouse_mode, commanded,
  Bridge, send_power_command,
}
use kvm_switcher.Prelude.{
  subst, sym, beq_iff, arith, Bool, [], ◌∷◌, ap, string_eq, ◌==◌, refl, ◌∙◌, inr, Bool-cases, ◌++◌,
  inl, insert, none, Option-cases, true, lookup, ◌≡◌, some, String, Option, ℕ,
}
use kvm_switcher.Api.Sessions.{email_of}
use kvm_switcher.Api.{ApiServer}
use kvm_switcher.Ikvm.Bytes.{Bytes}
use kvm_switcher.Session.{SessionStore}

module _ (st : SessionStore) where
  -- Either the bridge of the session, which has a client, writes what is asked for and it is audited once, or
  -- the request is refused and nothing changes.
  pub data Outcome (event email ip id : String) (Asks : Bytes → Type 0) (bs : Bridges)
      (a : ApiServer st) : (Bridges × ApiServer st) × CommandAnswer → Type 0 where
    sends :
        (b : Bridge) (bytes : Bytes)
        → lookup id bs ≡ some b
        → b.client ≡ true
        → Asks bytes
        → Outcome event email ip id Asks bs a (
          (insert id (record b { sent = b.sent ++ bytes }) bs, told st event email ip id a),
          done,
        )
    refuses : (n : ℕ) (m : String) → Outcome event email ip id Asks bs a ((bs, a), rejected n m)

  -- The command writes the bytes that are asked for.
  abbrev Writes : (Bytes → Type 0) → Option (Bridge → Option String × Bridge) → Type 0
  Writes Asks none = Unit {0}
  Writes Asks (some command) =
      (bytes : Bytes) × (Asks bytes × ((b : Bridge) → command b ≡ commanded bytes b))

  Outcome-commanded_on :
      (event email ip id : String) (Asks : Bytes → Type 0) (bytes : Bytes)
      (command : Bridge → Option String × Bridge) (b : Bridge) (bs : Bridges) (a : ApiServer st)
      → lookup id bs ≡ some b
      → Asks bytes
      → command b ≡ commanded bytes b
      → Outcome event email ip id Asks bs a (commanded_on st event email ip id command b bs a)
  Outcome-commanded_on event email ip id Asks bytes command b bs a l q e =
      elim (Bool-cases b.client) [
        | inl c ↦
            let f : command b ≡ (none, record b { sent = b.sent ++ bytes }) = e ∙ rw c refl in
            rw (commanded_on, ap (λ p. p.0) f, ap (λ p. p.1) f) (sends b bytes l c q)
        | inr c ↦
            let f : command b ≡ (some "not connected", b) = e ∙ rw c refl in
            rw (commanded_on, ap (λ p. p.0) f) (refuses 500 "not connected")
      ]

  Outcome-handled :
      {A : Type 0} (event email ip message id : String) (Asks : A → Bytes → Type 0)
      (body : Option A) (means : A → Option (Bridge → Option String × Bridge)) (bs : Bridges)
      (a : ApiServer st)
      → ((x : A) → Writes (Asks x) (means x))
      → Outcome event email ip id
          (Asked Asks body)
          bs
          a
          (handled st event email ip message id body means bs a)
  Outcome-handled event email ip message id Asks none means bs a w =
      elim (Option-cases (lookup id bs)) [
        | inl n ↦ rw (handled, n) (refuses 404 "no active KVM bridge for this session")
        | inr (b, l) ↦ rw (handled, l) (refuses 400 "invalid request body")
      ]
  Outcome-handled event email ip message id Asks (some x) means bs a w =
      elim (Option-cases (lookup id bs)) [
        | inl n ↦ rw (handled, n) (refuses 404 "no active KVM bridge for this session")
        | inr (b, l) ↦ elim (Option-cases (means x)) [
          | inl n ↦ rw (handled, l, n) (refuses 400 message)
          | inr (command, m) ↦
              let (bytes, (s, q)) : Writes (Asks x) (some command) = rw m at (w x) in
              rw (handled, l, m)
                (Outcome-commanded_on event email ip id _ bytes command b bs a l (x, (refl, s))
                  (q b))
        ]
      ]

  -- A word that was compared.
  asked_as :
      (Asks : String → Bytes → Type 0) (word known : String) (bytes : Bytes)
      → (word == known) ≡ true
      → Asks known bytes
      → Asks word bytes
  asked_as Asks word known bytes e s = subst (λ w. Asks w bytes) (sym ((beq_iff word known).0 e)) s

  Writes-power_code : (action : String) → Writes (Powers action) (power_code st action)
  unfolding send_power_command
  Writes-power_code action = elim (Bool-cases (action == "off")) [
    | inl e ↦ rw (power_code, e) (_, (asked_as Powers action "off" _ e off, λ b. refl))
    | inr e ↦ elim (Bool-cases (action == "on")) [
      | inl f ↦ rw (power_code, e, f) (_, (asked_as Powers action "on" _ f on, λ b. refl))
      | inr f ↦ elim (Bool-cases (action == "cycle")) [
        | inl g ↦
            rw (power_code, e, f, g) (_, (asked_as Powers action "cycle" _ g cycle, λ b. refl))
        | inr g ↦ elim (Bool-cases (action == "reset")) [
          | inl h ↦
              rw (power_code, e, f, g, h) (_, (asked_as Powers action "reset" _ h reset, λ b. refl))
          | inr h ↦ elim (Bool-cases (action == "soft_reset")) [
            | inl i ↦
                rw (power_code, e, f, g, h, i)
                  (_, (asked_as Powers action "soft_reset" _ i soft_reset, λ b. refl))
            | inr i ↦ rw (power_code, e, f, g, h, i) tt
          ]
        ]
      ]
    ]
  ]

  Writes-mouse_code : (mode : String) → Writes (Points mode) (mouse_code st mode)
  unfolding set_mouse_mode
  Writes-mouse_code mode = elim (Bool-cases (mode == "relative")) [
    | inl e ↦ rw (mouse_code, e) (_, (asked_as Points mode "relative" _ e relative, λ b. refl))
    | inr e ↦ elim (Bool-cases (mode == "absolute")) [
      | inl f ↦ rw (mouse_code, e, f) (_, (asked_as Points mode "absolute" _ f absolute, λ b. refl))
      | inr f ↦ rw (mouse_code, e, f) tt
    ]
  ]

  Writes-ipmi_of : (bytes : Bytes) → Writes (Carries bytes) (ipmi_of st bytes)
  unfolding send_ipmi_command
  Writes-ipmi_of [] = tt
  Writes-ipmi_of (x ∷ xs) = (_, ((ground arith, refl), λ b. refl))

  Writes-layout_code : (layout : String) → Writes (LaysOut layout) (layout_code st layout)
  unfolding set_keyboard_layout
  Writes-layout_code layout = elim (Bool-cases (layout == "en")) [
    | inl e ↦ rw (layout_code, e) (_, (asked_as LaysOut layout "en" _ e english, λ b. refl))
    | inr e ↦ elim (Bool-cases (layout == "fr")) [
      | inl f ↦ rw (layout_code, e, f) (_, (asked_as LaysOut layout "fr" _ f french, λ b. refl))
      | inr f ↦ elim (Bool-cases (layout == "de")) [
        | inl g ↦
            rw (layout_code, e, f, g) (_, (asked_as LaysOut layout "de" _ g german, λ b. refl))
        | inr g ↦ elim (Bool-cases (layout == "es")) [
          | inl h ↦
              rw (layout_code, e, f, g, h)
                (_, (asked_as LaysOut layout "es" _ h spanish, λ b. refl))
          | inr h ↦ elim (Bool-cases (layout == "jp")) [
            | inl i ↦
                rw (layout_code, e, f, g, h, i)
                  (_, (asked_as LaysOut layout "jp" _ i japanese, λ b. refl))
            | inr i ↦ rw (layout_code, e, f, g, h, i) tt
          ]
        ]
      ]
    ]
  ]

  -- A power action other than the cold reset, a lock, a reset of the video, a mouse mode, a keyboard layout
  -- and an IPMI command each are either written to the bridge of the session that the request names, which
  -- has a client, as the message that the body asks for, and audited once, or refused without any change of
  -- the bridges and of the server. The
  -- entry names the user of the login and the host part of the address, but for a power action, whose entry
  -- names no user and the whole address.
  pub commands-Outcome :
      (id : String) (c : Commander) (bs : Bridges) (a : ApiServer st)
      → ((body : Option String)
          → Outcome "kvm_power_control" "" c.remote_addr id
              (Asked Powers body)
              bs
              a
              (power_by st id body c bs a))
        × (((body : Option Bool)
              → Outcome "kvm_display_lock"
                  (email_of c.user)
                  c.ip
                  id
                  (Asked Locks body)
                  bs
                  a
                  (kvm_display_lock st id body c bs a))
            × (Outcome "kvm_reset_video"
                  (email_of c.user)
                  c.ip
                  id
                  (Asked Resets (some true))
                  bs
                  a
                  (kvm_reset_video st id c bs a)
                × (((body : Option String)
                      → Outcome "kvm_mouse_mode"
                          (email_of c.user)
                          c.ip
                          id
                          (Asked Points body)
                          bs
                          a
                          (kvm_mouse_mode st id body c bs a))
                    × (((body : Option String)
                          → Outcome "kvm_keyboard_layout"
                              (email_of c.user)
                              c.ip
                              id
                              (Asked LaysOut body)
                              bs
                              a
                              (kvm_keyboard_layout st id body c bs a))
                        × ((body : Option Bytes)
                            → Outcome "kvm_ipmi_command"
                                (email_of c.user)
                                c.ip
                                id
                                (Asked Carries body)
                                bs
                                a
                                (kvm_ipmi_command st id body c bs a))))))
  unfolding kvm_display_lock kvm_reset_video kvm_mouse_mode kvm_keyboard_layout kvm_ipmi_command
      send_display_lock reset_video
  commands-Outcome id c bs a = (
    λ body. Outcome-handled _ _ _ _ id _ body _ bs a Writes-power_code,
    (
      λ body.
          Outcome-handled _ _ _ "" id Locks body (λ lock. some (send_display_lock lock)) bs a
            (λ lock. (_, (refl, λ b. refl))),
      (
        Outcome-handled _ _ _ "" id Resets (some true) (λ _. some reset_video) bs a
            (λ _. (_, (refl, λ b. refl))),
        (
          λ body. Outcome-handled _ _ _ _ id _ body _ bs a Writes-mouse_code,
          (
            λ body. Outcome-handled _ _ _ _ id _ body _ bs a Writes-layout_code,
            λ body. Outcome-handled _ _ _ _ id _ body _ bs a Writes-ipmi_of,
          ),
        ),
      ),
    ),
  )
