-- ===== src/Ikvm/Decoder/Loops.antt =====
-- The counted loops of internal/ikvm/decoder.go and decompress.go, and their fixed arrays as functions of the
-- index. What reading beyond an array gives is up to the table; the code's indices stay inside.
use kvm_switcher.Prelude.{
  arith, ◌+◌, ◌<◌, inr, inl, Bool-cases, false, nat_eq, true, ◌==◌, zero, ◌≡◌, if◌then◌else◌, suc,
  Bool, ℕ,
}

-- `a[i] = v`
abbrev pub assign {ℓ} : {A : Type ℓ} → (ℕ → A) → ℕ → A → ℕ → A
assign a i v j = if j == i then v else a j

-- `for i := first; i < first + rounds; i++ { s = body(i, s) }`
abbrev pub for_each {ℓ} : {S : Type ℓ} → ℕ → ℕ → (ℕ → S → S) → S → S
for_each zero first body s = s
for_each (suc rounds) first body s = for_each rounds (suc first) body (body first s)

-- The same with `if stop(i) { break }` at the head of the body.
abbrev pub for_until {ℓ} : {S : Type ℓ} → ℕ → ℕ → (ℕ → Bool) → (ℕ → S → S) → S → S
for_until zero first stop body s = s
for_until (suc rounds) first stop body s = elim (stop first) [
  | true ↦ s
  | false ↦ for_until rounds (suc first) stop body (body first s)
]

-- What every round keeps holds after the loop.
pub for_each-keeps {ℓ κ} :
    {S : Type ℓ} (P : S → Type κ) (rounds first : ℕ) (body : ℕ → S → S) (s : S)
    → ((i : ℕ) (t : S) → i < first + rounds → P t → P (body i t))
    → P s
    → P (for_each rounds first body s)
for_each-keeps P zero first body s keep h = h
for_each-keeps P (suc rounds) first body s keep h =
    for_each-keeps P rounds (suc first) body (body first s) (λ i t l. keep i t (omega arith))
      (keep first s (omega arith) h)

pub for_until-keeps {ℓ κ} :
    {S : Type ℓ} (P : S → Type κ) (rounds first : ℕ) (stop : ℕ → Bool) (body : ℕ → S → S) (s : S)
    → ((i : ℕ) (t : S) → i < first + rounds → stop i ≡ false → P t → P (body i t))
    → P s
    → P (for_until rounds first stop body s)
for_until-keeps P zero first stop body s keep h = h
for_until-keeps P (suc rounds) first stop body s keep h = elim (Bool-cases (stop first)) [
  | inl e ↦ rw (for_until, e) h
  | inr e ↦
      rw (for_until, e)
        (for_until-keeps P rounds (suc first) stop body (body first s)
          (λ i t l. keep i t (omega arith)) (keep first s (omega arith) e h))
]

-- An invariant that counts the rounds, and a relation between the runs of two loops.
pub for_each-inv {ℓ κ} :
    {S : Type ℓ} (P : ℕ → S → Type κ) (rounds first last : ℕ) (body : ℕ → S → S) (s : S)
    → first + rounds ≡ last
    → ((i : ℕ) (t : S) → P i t → P (suc i) (body i t))
    → P first s
    → P last (for_each rounds first body s)
for_each-inv P zero first last body s e keep h = let f : first ≡ last = omega arith in rw (← f) h
for_each-inv P (suc rounds) first last body s e keep h =
    for_each-inv P rounds (suc first) last body (body first s) (omega arith) keep (keep first s h)

pub for_each-related {ℓ κ} :
    {S : Type ℓ} (R : S → S → Type κ) (rounds first : ℕ) (f g : ℕ → S → S) (s t : S)
    → ((i : ℕ) (u v : S) → R u v → R (f i u) (g i v))
    → R s t
    → R (for_each rounds first f s) (for_each rounds first g t)
for_each-related R zero first f g s t keep h = h
for_each-related R (suc rounds) first f g s t keep h =
    for_each-related R rounds (suc first) f g (f first s) (g first t) keep (keep first s t h)
