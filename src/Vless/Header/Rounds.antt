-- ===== src/Vless/Header/Rounds.antt =====
-- src/protocol/vless/header.rs: the loop over the fields of the addons ends.
use elise_backend.Prelude.{
  ℕ, zero, suc, ◌+◌, ◌*◌, ◌/◌, ◌%◌, ◌^◌, ◌<◌, ◌≤◌, ◌≡◌, refl, Bool, true, false, Option, none, some,
  List, [], ◌∷◌, arith, bit_and, bit_or, ◌==◌, ltb, if◌then◌else◌, length, take, drop, length-drop,
}
use elise_backend.Vless.Header.{
  VlessAddons, no_addons, read_uvarint_from, read_uvarint, set_field, one_field, parse_fields,
  parse_addons,
}

-- `P` of what is there.
abbrev Every {ℓ} : {A : Type ℓ} → (A → Type 0) → Option A → Type 0
Every P none = Unit
Every P (some a) = P a

-- Both give a result, and the same one.
abbrev EndAlike : Option VlessAddons → Option VlessAddons → Type 0
EndAlike o u = (a : VlessAddons) × (o ≡ some a) × (u ≡ some a)

if-Every {ℓ} :
    {A : Type ℓ} (P : A → Type 0) (b : Bool) (o u : Option A)
    → Every P o
    → Every P u
    → Every P (if b then o else u)
if-Every P true o u h k = h
if-Every P false o u h k = k

weaken-Every {ℓ} :
    {A : Type ℓ} (P Q : A → Type 0) (o : Option A) → ((a : A) → P a → Q a) → Every P o → Every Q o
weaken-Every P Q none f h = h
weaken-Every P Q (some a) f h = f a h

read_uvarint_from-shorter :
    (rounds value shift : ℕ) (buf : List ℕ)
    → Every (λ r. length r.1 < length buf) (read_uvarint_from rounds value shift buf)
unfolding read_uvarint_from
read_uvarint_from-shorter zero value shift buf = tt
read_uvarint_from-shorter (suc rounds) value shift [] = tt
read_uvarint_from-shorter (suc rounds) value shift (b ∷ buf) =
    let value' : ℕ = bit_or value (bit_and b 0x7f * 2 ^ shift % 2 ^ 64) in
    let more : Option (ℕ × List ℕ) = read_uvarint_from rounds value' (shift + 7) buf in
    if-Every (λ r. length r.1 < suc (length buf)) (bit_and b 0x80 == 0) (some (value', buf))
      (if ltb 63 (shift + 7) then none else more) (omega arith)
      (if-Every (λ r. length r.1 < suc (length buf)) (ltb 63 (shift + 7)) none more tt
        (weaken-Every (λ r. length r.1 < length buf) (λ r. length r.1 < suc (length buf)) more
          (λ r h. omega arith) (read_uvarint_from-shorter rounds value' (shift + 7) buf)))

module _ (lossy : List ℕ → List ℕ) where
  one_field-shorter :
      (wire_type field_num : ℕ) (buf : List ℕ) (addons : VlessAddons)
      → Every
          (λ (r : List ℕ × VlessAddons). length r.0 ≤ length buf)
          (one_field lossy wire_type field_num buf addons)
  unfolding one_field read_uvarint
  one_field-shorter wire_type field_num buf addons =
      let Fits : (List ℕ × VlessAddons) → Type 0 = λ r. length r.0 ≤ length buf in
      let number = read_uvarint_from-shorter 10 0 0 buf in
      if-Every Fits (wire_type == 0) _ _ (skipped (read_uvarint_from 10 0 0 buf) number) (
        if-Every Fits (wire_type == 1) _ _
          (if-Every Fits (ltb (length buf) 8) none _ tt (omega (arith, length-drop 8 buf)))
          (if-Every Fits (wire_type == 2) _ _ (taken (read_uvarint_from 10 0 0 buf) number) (
            if-Every Fits (wire_type == 5) _ none
              (if-Every Fits (ltb (length buf) 4) none _ tt (omega (arith, length-drop 4 buf)))
              tt)))
    where
      skipped :
          (o : Option (ℕ × List ℕ))
          → Every (λ (r : ℕ × List ℕ). length r.1 < length buf) o
          → Every
              (λ (r : List ℕ × VlessAddons). length r.0 ≤ length buf)
              (elim o [ none ↦ none | some r ↦ some (r.1, addons) ])
      skipped none h = tt
      skipped (some r) h = omega arith

      taken :
          (o : Option (ℕ × List ℕ))
          → Every (λ (r : ℕ × List ℕ). length r.1 < length buf) o
          → Every
              (λ (r : List ℕ × VlessAddons). length r.0 ≤ length buf)
              (elim o [
                | none ↦ none
                | some r ↦
                    if ltb (length r.1) r.0
                    then none
                    else some (drop r.0 r.1, set_field lossy field_num (take r.0 r.1) addons)
              ])
      taken none h = tt
      taken (some r) h =
          if-Every (λ (t : List ℕ × VlessAddons). length t.0 ≤ length buf) (ltb (length r.1) r.0)
            none (some (drop r.0 r.1, set_field lossy field_num (take r.0 r.1) addons)) tt
            (omega (arith, length-drop r.0 r.1))

  -- Two loops that end alike on what follows a field end alike on what follows its tag.
  module _ (f g : ℕ) (buf : List ℕ) (addons : VlessAddons)
      (alike : (rest : List ℕ) (a : VlessAddons)
        → length rest ≤ length buf
        → EndAlike (parse_fields lossy f rest a) (parse_fields lossy g rest a)) where
    after_field :
        (o : Option (List ℕ × VlessAddons))
        → Every (λ (r : List ℕ × VlessAddons). length r.0 ≤ length buf) o
        → EndAlike
            (elim o [ none ↦ some addons | some next ↦ parse_fields lossy f next.0 next.1 ])
            (elim o [ none ↦ some addons | some next ↦ parse_fields lossy g next.0 next.1 ])
    after_field none h = (addons, refl, refl)
    after_field (some next) h = alike next.0 next.1 h

    after_tag :
        (o : Option (ℕ × List ℕ))
        → Every (λ (r : ℕ × List ℕ). length r.1 < suc (length buf)) o
        → EndAlike
            (elim o [
              | none ↦ some addons
              | some t ↦ elim (one_field lossy (bit_and t.0 0x07) (t.0 / 2 ^ 3) t.1 addons) [
                | none ↦ some addons
                | some next ↦ parse_fields lossy f next.0 next.1
              ]
            ])
            (elim o [
              | none ↦ some addons
              | some t ↦ elim (one_field lossy (bit_and t.0 0x07) (t.0 / 2 ^ 3) t.1 addons) [
                | none ↦ some addons
                | some next ↦ parse_fields lossy g next.0 next.1
              ]
            ])
    after_tag none h = (addons, refl, refl)
    after_tag (some t) h =
        after_field (one_field lossy (bit_and t.0 0x07) (t.0 / 2 ^ 3) t.1 addons) (
          weaken-Every (λ (r : List ℕ × VlessAddons). length r.0 ≤ length t.1)
            (λ (r : List ℕ × VlessAddons). length r.0 ≤ length buf) _ (λ r k. omega arith)
            (one_field-shorter (bit_and t.0 0x07) (t.0 / 2 ^ 3) t.1 addons))

  enough :
      (f g : ℕ) (buf : List ℕ) (addons : VlessAddons)
      → length buf ≤ f
      → length buf ≤ g
      → EndAlike (parse_fields lossy f buf addons) (parse_fields lossy g buf addons)
  unfolding parse_fields read_uvarint
  enough zero zero [] addons hf hg = (addons, refl, refl)
  enough zero (suc g) [] addons hf hg = (addons, refl, refl)
  enough (suc f) zero [] addons hf hg = (addons, refl, refl)
  enough (suc f) (suc g) [] addons hf hg = (addons, refl, refl)
  enough zero g (b ∷ buf) addons hf hg = absurd (omega arith)
  enough (suc f) zero (b ∷ buf) addons hf hg = absurd (omega arith)
  enough (suc f) (suc g) (b ∷ buf) addons hf hg =
      after_tag f g buf addons (λ rest a h. enough f g rest a (omega arith) (omega arith))
        (read_uvarint_from 10 0 0 (b ∷ buf)) (read_uvarint_from-shorter 10 0 0 (b ∷ buf))

-- The loop over the fields ends within as many rounds as there are bytes, whatever the bytes: with
-- that many rounds or more it gives a result, which is that of `parse_addons`.
pub parse_addons-rounds :
    (lossy : List ℕ → List ℕ) (fuel : ℕ) (buf : List ℕ)
    → length buf ≤ fuel
    → parse_fields lossy fuel buf no_addons ≡ some (parse_addons lossy buf)
unfolding parse_addons
parse_addons-rounds lossy fuel buf h =
    same_end (parse_fields lossy fuel buf no_addons) (parse_fields lossy (length buf) buf no_addons)
      (enough lossy fuel (length buf) buf no_addons h (omega arith))
  where
    same_end :
        (o u : Option VlessAddons)
        → EndAlike o u
        → o ≡ some (elim u [ none ↦ no_addons | some addons ↦ addons ])
    same_end o u (a, e, e') = rw (e, e') refl
