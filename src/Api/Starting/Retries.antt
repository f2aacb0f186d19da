-- ===== src/Api/Starting/Retries.antt =====
-- How the retry loop of `startSession` ends.
use kvm_switcher.Prelude.{
  ℕ, zero, suc, ◌+◌, ◌≤◌, ◌<◌, ◌≡◌, ◌⊎◌, String, refl, Bool, true, false, arith, Bool-cases, inl,
  inr, ◌∙◌, ap,
}
use kvm_switcher.Api.Starting.{Reply, ok, fails, is_transient_error, retry_on, retry, with_retries}
use kvm_switcher.Api.Starting.{bmc_retry_attempts}

pub Reply-cases :
    {A : Type 0} (r : Reply A) → ((a : A) × (r ≡ ok a)) ⊎ ((e : String) × (r ≡ fails e))
Reply-cases (ok a) = inl (a, refl)
Reply-cases (fails e) = inr (e, refl)

module _ {A : Type 0} (ask : ℕ → Reply A) where
  abbrev pub transient : Reply A → Bool
  transient (ok a) = false
  transient (fails e) = is_transient_error e

  -- The loop ends with the attempt `last` after the first: all those before it failed for a transient
  -- reason, and it did not, unless it was the last that there may be.
  pub record StopsAt (first left : ℕ) (reply : Reply A) (made : ℕ) : Type 0 where
    pub last : ℕ
    pub made_lem : made ≡ suc last
    pub few : last ≤ left
    pub from : ask (last + first) ≡ reply
    pub before : (n : ℕ) → n < last → transient (ask (n + first)) ≡ true
    pub stops : last < left → transient reply ≡ false

  shifted :
      (first left : ℕ) (reply : Reply A) (made : ℕ) (e : String)
      → ask first ≡ fails e
      → is_transient_error e ≡ true
      → StopsAt (suc first) left reply made
      → StopsAt first (suc left) reply (suc made)
  shifted first left reply made e h t r = record {
    last = suc r.last;
    made_lem = omega (arith, r.made_lem);
    few = omega (arith, r.few);
    from = ap ask (omega arith) ∙ r.from;
    before = shifted_before;
    stops = λ k. r.stops (omega arith);
  }
    where
      shifted_before : (n : ℕ) → n < suc r.last → transient (ask (n + first)) ≡ true
      shifted_before zero k = ap (λ i. transient (ask i)) (omega arith) ∙ ap transient h ∙ t
      shifted_before (suc n) k =
          ap (λ i. transient (ask i)) (omega arith) ∙ r.before n (omega arith)

  at_once :
      (first left : ℕ) (reply : Reply A)
      → ask first ≡ reply
      → (0 < left → transient reply ≡ false)
      → StopsAt first left reply 1
  at_once first left reply h s = record {
    last = 0;
    made_lem = refl;
    few = omega arith;
    from = ap ask (omega arith) ∙ h;
    before = λ n k. ground arith;
    stops = s;
  }

  retried :
      (first left : ℕ) (reply : Reply A) (rest : Reply A × ℕ)
      → ask first ≡ reply
      → StopsAt (suc first) left rest.0 rest.1
      → StopsAt first (suc left) (retry_on reply rest).0 (retry_on reply rest).1
  retried first left (ok a) rest h r = at_once first (suc left) (ok a) h (λ _. refl)
  retried first left (fails e) rest h r = elim (Bool-cases (is_transient_error e)) [
    | inl t ↦ ground (arith, shifted first left rest.0 rest.1 e h t r)
    | inr t ↦ ground (arith, at_once first (suc left) (fails e) h (λ _. t))
  ]

  pub retry-StopsAt :
      (first left : ℕ) → StopsAt first left (retry ask first left).0 (retry ask first left).1
  unfolding retry
  retry-StopsAt first zero = at_once first zero (ask first) refl (λ h. ground arith)
  retry-StopsAt first (suc left) =
      retried first left (ask first) (retry ask (suc first) left) refl
        (retry-StopsAt (suc first) left)

  -- A call of a board that is retried makes one, two or three attempts; its reply is the last one's,
  -- every earlier attempt failed for a transient reason, and the last one did not unless it was the
  -- third.
  pub with_retries-StopsAt :
      (StopsAt 1 2 (with_retries ask) (retry ask 1 2).1) × ((retry ask 1 2).1 ≤ bmc_retry_attempts)
  unfolding with_retries
  with_retries-StopsAt =
      let r : StopsAt 1 2 (retry ask 1 2).0 (retry ask 1 2).1 = retry-StopsAt 1 2 in
      (r, omega (arith, r.made_lem, r.few))
