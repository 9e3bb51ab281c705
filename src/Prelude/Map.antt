-- ===== src/Prelude/Map.antt =====
-- `HashMap` as an association list with one entry for each key, and keys compared by `Eq`.
use elise_backend.Prelude.{
  ℕ, suc, ◌≤◌, ◌≡◌, refl, ◌↔◌, Bool, true, Option, none, some, List, [], ◌∷◌, arith, ◌==◌,
  if◌then◌else◌, length, ==_iff, Bool-cases, inl, inr,
}
use mathlib.Core.Path.{subst}
use elise_backend.Prelude.Text.{bytes_eq, bytes_eq-eq, bytes_eq_self}

pub record Eq {ℓ} (K : Type ℓ) : Type ℓ where
  pub beq : K → K → Bool
  pub beq_iff : (a b : K) → (beq a b ≡ true) ↔ (a ≡ b)

abbrev pub HashMap : Type 0 → Type 0 → Type 0
HashMap K V = List (K × V)

beq_self : {K : Type 0} ⦃e : Eq K⦄ (k : K) → e.beq k k ≡ true
beq_self ⦃e⦄ k = (e.beq_iff k k).1 refl

module _ {K V : Type 0} ⦃e : Eq K⦄ where
  unfoldable pub get : K → HashMap K V → Option V
  get k [] = none
  get k ((j, v) ∷ m) = if e.beq j k then some v else get k m

  unfoldable pub insert : K → V → HashMap K V → HashMap K V
  insert k v [] = (k, v) ∷ []
  insert k v ((j, w) ∷ m) = if e.beq j k then (k, v) ∷ m else (j, w) ∷ insert k v m

  unfoldable pub remove : K → HashMap K V → HashMap K V
  remove k [] = []
  remove k ((j, w) ∷ m) = let rest = remove k m in if e.beq j k then rest else (j, w) ∷ rest

  unfoldable pub retain : (K → V → Bool) → HashMap K V → HashMap K V
  retain keep [] = []
  retain keep ((j, w) ∷ m) = let rest = retain keep m in if keep j w then (j, w) ∷ rest else rest

  abbrev pub Unique : HashMap K V → Type 0
  Unique [] = Unit {0}
  Unique ((k, v) ∷ m) = (get k m ≡ none) × Unique m

  pub get-insert :
      (k j : K) (v : V) (m : HashMap K V)
      → get j (insert k v m) ≡ (if e.beq k j then some v else get j m)
  unfolding get insert
  get-insert k j v [] = refl
  get-insert k j v ((i, w) ∷ m) =
      ground (arith, get-insert k j v m, e.beq_iff k j, e.beq_iff i k, e.beq_iff i j)

  pub get-insert_self : (k : K) (v : V) (m : HashMap K V) → get k (insert k v m) ≡ some v
  get-insert_self k v m = rw (get-insert k k v m, beq_self k)

  pub get-remove :
      (k j : K) (m : HashMap K V) → get j (remove k m) ≡ (if e.beq k j then none else get j m)
  unfolding get remove
  get-remove k j [] = ground arith
  get-remove k j ((i, w) ∷ m) =
      ground (arith, get-remove k j m, e.beq_iff k j, e.beq_iff i k, e.beq_iff i j)

  get-retain-none :
      (keep : K → V → Bool) (j : K) (m : HashMap K V)
      → get j m ≡ none
      → get j (retain keep m) ≡ none
  unfolding get retain
  get-retain-none keep j [] h = refl
  get-retain-none keep j ((i, w) ∷ m) h = ground (arith, get-retain-none keep j m)

  pub get-retain :
      (keep : K → V → Bool) (j : K) (m : HashMap K V)
      → Unique m
      → get j (retain keep m)
        ≡ elim (get j m) [ none ↦ none | some v ↦ if keep j v then some v else none ]
  unfolding get retain
  get-retain keep j [] u = refl
  get-retain keep j ((i, w) ∷ m) u = elim (Bool-cases (e.beq i j)) [
    | inl same ↦
        let q = (e.beq_iff i j).0 same in
        ground (arith, q, get-retain-none keep j m (subst (λ x. get x m ≡ none) q u.0))
    | inr other ↦ ground (arith, get-retain keep j m u.1)
  ]

  pub insert-Unique : (k : K) (v : V) (m : HashMap K V) → Unique m → Unique (insert k v m)
  unfolding insert
  insert-Unique k v [] u = (unfold get in refl, tt)
  insert-Unique k v ((i, w) ∷ m) u =
      ground (arith, get-insert k i v m, insert-Unique k v m u.1, e.beq_iff i k, e.beq_iff k i)

  pub remove-Unique : (k : K) (m : HashMap K V) → Unique m → Unique (remove k m)
  unfolding remove
  remove-Unique k [] u = tt
  remove-Unique k ((i, w) ∷ m) u = ground (arith, get-remove k i m, remove-Unique k m u.1)

  pub retain-Unique : (keep : K → V → Bool) (m : HashMap K V) → Unique m → Unique (retain keep m)
  unfolding retain
  retain-Unique keep [] u = tt
  retain-Unique keep ((i, w) ∷ m) u =
      ground (arith, get-retain-none keep i m, retain-Unique keep m u.1)

  pub length-retain : (keep : K → V → Bool) (m : HashMap K V) → length (retain keep m) ≤ length m
  unfolding retain
  length-retain keep [] = omega arith
  length-retain keep ((i, w) ∷ m) = ground (arith, length-retain keep m)

  pub length-insert :
      (k : K) (v : V) (m : HashMap K V)
      → length (insert k v m) ≡ elim (get k m) [ none ↦ suc (length m) | some _ ↦ length m ]
  unfolding get insert
  length-insert k v [] = refl
  length-insert k v ((i, w) ∷ m) = ground (arith, length-insert k v m)

  pub length-remove : (k : K) (m : HashMap K V) → length (remove k m) ≤ length m
  unfolding remove
  length-remove k [] = omega arith
  length-remove k ((i, w) ∷ m) = ground (arith, length-remove k m)

instance abbrev pub nat_eq : Eq ℕ
nat_eq = record { beq = ◌==◌; beq_iff = ==_iff }

pub bytes_eq_iff : (a b : List ℕ) → (bytes_eq a b ≡ true) ↔ (a ≡ b)
bytes_eq_iff a b = (bytes_eq-eq a b, λ q. rw q (bytes_eq_self b))

instance abbrev pub bytes_eq_instance : Eq (List ℕ)
bytes_eq_instance = record { beq = bytes_eq; beq_iff = bytes_eq_iff }
