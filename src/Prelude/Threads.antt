-- ===== src/Prelude/Threads.antt =====
-- Threads as a family indexed by number: a change at one thread, and counts over the first `n`.
use elise_backend.Prelude.{
  ℕ, zero, suc, ◌+◌, ◌≤◌, ◌<◌, ◌≡◌, refl, arith, ◌==◌, if◌then◌else◌, Bool-cases, inl, inr,
}

abbrev pub update {ℓ} : {A : Type ℓ} → (ℕ → A) → ℕ → A → ℕ → A
update f i a j = if i == j then a else f j

module _ {ℓ} {A : Type ℓ} (weight : A → ℕ) where
  pub tally : ℕ → (ℕ → A) → ℕ
  tally zero f = 0
  tally (suc n) f = weight (f n) + tally n f

  -- A thread that is not counted.
  tally_outside : (n i : ℕ) (f : ℕ → A) (a : A) → n ≤ i → tally n (update f i a) ≡ tally n f
  unfolding tally
  tally_outside zero i f a h = refl
  tally_outside (suc n) i f a h = ground (arith, tally_outside n i f a)

  -- A thread that is counted: its old weight goes and its new one comes.
  pub tally-update :
      (n i : ℕ) (f : ℕ → A) (a : A)
      → i < n
      → tally n (update f i a) + weight (f i) ≡ tally n f + weight a
  unfolding tally
  tally-update zero i f a h = absurd (omega arith)
  tally-update (suc n) i f a h = elim (Bool-cases (i == n)) [
    | inl last ↦ ground (arith, tally_outside n i f a)
    | inr before ↦ ground (arith, tally-update n i f a)
  ]

  pub weight-le-tally : (n i : ℕ) (f : ℕ → A) → i < n → weight (f i) ≤ tally n f
  unfolding tally
  weight-le-tally zero i f h = absurd (omega arith)
  weight-le-tally (suc n) i f h = elim (Bool-cases (i == n)) [
    | inl last ↦ ground arith
    | inr before ↦ ground (arith, weight-le-tally n i f)
  ]

  pub tally-zero : (n : ℕ) (f : ℕ → A) → ((i : ℕ) → weight (f i) ≡ 0) → tally n f ≡ 0
  unfolding tally
  tally-zero zero f h = refl
  tally-zero (suc n) f h = omega (arith, h n, tally-zero n f h)

module _ {ℓ} {A : Type ℓ} (v w : A → ℕ) where
  pub tally_mono : (n : ℕ) (f : ℕ → A) → ((i : ℕ) → v (f i) ≤ w (f i)) → tally v n f ≤ tally w n f
  unfolding tally
  tally_mono zero f h = omega arith
  tally_mono (suc n) f h = omega (arith, h n, tally_mono n f h)
