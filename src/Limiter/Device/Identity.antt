-- ===== src/Limiter/Device/Identity.antt =====
-- Which addresses `normalize_ip` takes for one device.
use native.Mathlib.Nat.{one-le-pow, mul-div_cancel}
use elise_backend.Prelude.{
  ℕ, ◌+◌, ◌-◌, ◌*◌, ◌/◌, ◌%◌, ◌^◌, ◌≡◌, ◌<◌, refl, ◌≢◌, ◌↔◌, ap, sym, arith, ◌∙◌,
}
use elise_backend.Prelude.Bytes.{bit_and_high, table_below, agree_below}
use elise_backend.Prelude.Net.{IpAddr, v4, v6, to_canonical}
use elise_backend.Limiter.Device.{network, normalize_ip}

v4_mask : (p : ℕ) → p < 32 → (2 ^ 64 - 1 - (2 ^ (32 - p) - 1)) % 2 ^ 32 ≡ (2 ^ p - 1) * 2 ^ (32 - p)
unfolding agree_below
v4_mask = table_below _ _ 32 refl

v6_mask : (p : ℕ) → p < 128 → 2 ^ 128 - 1 - (2 ^ (128 - p) - 1) ≡ (2 ^ p - 1) * 2 ^ (128 - p)
unfolding agree_below
v6_mask = table_below _ _ 128 refl

v4_split : (p : ℕ) → p < 32 → 2 ^ p * 2 ^ (32 - p) ≡ 2 ^ 32
unfolding agree_below
v4_split = table_below _ (λ _. 2 ^ 32) 32 refl

v6_split : (p : ℕ) → p < 128 → 2 ^ p * 2 ^ (128 - p) ≡ 2 ^ 128
unfolding agree_below
v6_split = table_below _ (λ _. 2 ^ 128) 128 refl

cancel : (x y k : ℕ) → x * 2 ^ k ≡ y * 2 ^ k → x ≡ y
cancel x y k h =
    sym (mul-div_cancel x (one-le-pow k 2 (omega arith)))
    ∙ ap (λ (t : ℕ). t / 2 ^ k) h
    ∙ mul-div_cancel y (one-le-pow k 2 (omega arith))

v4_network :
    (p q a : ℕ)
    → 0 < p
    → p < 32
    → a < 2 ^ 32
    → normalize_ip p q (v4 a) ≡ network (v4 (a / 2 ^ (32 - p) * 2 ^ (32 - p))) p
unfolding normalize_ip to_canonical
v4_network p q a lo hi ha = ground (arith, v4_mask p hi, v4_split p hi, bit_and_high (32 - p) p a)

v6_network :
    (p q a : ℕ)
    → 0 < q
    → q < 128
    → a < 2 ^ 128
    → a / 2 ^ 32 ≢ 0xffff
    → normalize_ip p q (v6 a) ≡ network (v6 (a / 2 ^ (128 - q) * 2 ^ (128 - q))) q
unfolding normalize_ip to_canonical
v6_network p q a lo hi ha unmapped =
    ground (arith, v6_mask q hi, v6_split q hi, bit_and_high (128 - q) q a)

network-injective :
    (f : ℕ → IpAddr)
    → ((a b : ℕ) → f a ≡ f b → a ≡ b)
    → (x y k p : ℕ) → (network (f (x * 2 ^ k)) p ≡ network (f (y * 2 ^ k)) p) ↔ (x ≡ y)
network-injective f inj x y k p = (λ h. cancel x y k (inj _ _ (cc)), λ h. rw h)

-- For a prefix of 1 to 31 bits, two IPv4 addresses are one device exactly when they agree on the prefix, and an
-- IPv4 address that comes mapped into IPv6 is the same device as the address itself.
pub normalize_ip-v4 :
    (p q a b : ℕ)
    → 0 < p
    → p < 32
    → a < 2 ^ 32
    → b < 2 ^ 32
    → ((normalize_ip p q (v4 a) ≡ normalize_ip p q (v4 b)) ↔ (a / 2 ^ (32 - p) ≡ b / 2 ^ (32 - p)))
      × (normalize_ip p q (v6 (0xffff * 2 ^ 32 + a)) ≡ normalize_ip p q (v4 a))
normalize_ip-v4 p q a b lo hi ha hb = (
  rw (v4_network p q a lo hi ha, v4_network p q b lo hi hb)
      (network-injective v4 (λ x y h. cc) (a / 2 ^ (32 - p)) (b / 2 ^ (32 - p)) (32 - p) p),
  unfold normalize_ip to_canonical in ground arith,
)

-- For a prefix of 1 to 127 bits, two IPv6 addresses that are not mapped IPv4 ones are one device exactly when
-- they agree on the prefix.
pub normalize_ip-v6 :
    (p q a b : ℕ)
    → 0 < q
    → q < 128
    → a < 2 ^ 128
    → b < 2 ^ 128
    → a / 2 ^ 32 ≢ 0xffff
    → b / 2 ^ 32 ≢ 0xffff
    → (normalize_ip p q (v6 a) ≡ normalize_ip p q (v6 b)) ↔ (a / 2 ^ (128 - q) ≡ b / 2 ^ (128 - q))
normalize_ip-v6 p q a b lo hi ha hb ma mb =
    rw (v6_network p q a lo hi ha ma, v6_network p q b lo hi hb mb)
      (network-injective v6 (λ x y h. cc) (a / 2 ^ (128 - q)) (b / 2 ^ (128 - q)) (128 - q) q)
