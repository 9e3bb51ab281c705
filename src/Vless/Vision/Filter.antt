-- ===== src/Vless/Vision/Filter.antt =====
-- src/protocol/vless/vision.rs: what the filter of TLS records does over the chunks of a stream.
use elise_backend.Prelude.{
  ℕ, suc, ◌+◌, ◌-◌, ◌≤◌, ◌<◌, ◌≡◌, ◌≢◌, ◌⊎◌, inl, inr, refl, ap, ◌∙◌, min, Bool, true, false, not,
  ◌&&◌, ◌||◌, List, [], ◌∷◌, ltb, leb, ◌==◌, if◌then◌else◌, arith, length, take, starts_with, Io,
  ok, ◌>>=◌, index, slice, Returns, bind-Returns, if-Returns, weaken-Returns, leb→le, le→leb,
  Bool-cases,
}
use elise_backend.Prelude.Bytes.{from_be_u16}
use elise_backend.Prelude.Position.{index-below}
use elise_backend.Prelude.Int.{ℤ, pos, negsuc, wrapping_sub_i32, is_positive}
use elise_backend.Prelude.Strings.{is_empty, contains_text}
use elise_backend.Vless.Vision.{
  TrafficState, is_handshake, read_cipher, server_hello, scan_hello, scan_if_left, filter_tls,
  tls_server_handshake_start, tls_client_handshake_start, tls13_supported_versions,
}

-- The front of some length of a chunk offers TLS 1.3.
abbrev pub Offers : List ℕ → Type 0
Offers s = (end : ℕ) × (contains_text (take end s) tls13_supported_versions ≡ true)

-- More of a server hello is only awaited once one was seen.
abbrev HelloSeen : TrafficState → Type 0
HelloSeen t = is_positive t.remaining_server_hello ≡ true → t.is_tls12_or_above ≡ true

-- XTLS is allowed, and the filter is done.
abbrev pub Allowed : TrafficState → Type 0
Allowed u = (u.cipher ≢ 0x1305) × (u.packets_to_filter ≡ 0) × (u.is_tls12_or_above ≡ true)

-- Before the server hello is looked through, one chunk is counted and XTLS is as before.
abbrev Counted : TrafficState → TrafficState → Type 0
Counted t u =
    (u.user_uuid ≡ t.user_uuid)
    × (u.enable_xtls ≡ t.enable_xtls)
    × (u.packets_to_filter ≤ t.packets_to_filter - 1)
    × (HelloSeen t → HelloSeen u)

-- What a chunk makes of a state.
abbrev Filtered : TrafficState → List ℕ → Bool → TrafficState → Type 0
Filtered t s is_downlink u =
    (u.user_uuid ≡ t.user_uuid)
    × ((u.enable_xtls ≡ t.enable_xtls)
        ⊎ ((is_downlink ≡ true) × Offers s × (HelloSeen t → Allowed u)))
    × (u.packets_to_filter ≤ t.packets_to_filter - 1)
    × (HelloSeen t → HelloSeen u)

index-Returns : (s : List ℕ) (i : ℕ) → i < length s → Returns (λ _. Unit {0}) (index s i)
index-Returns s i h = let found = index-below s i h in rw (found.1) tt

slice-front : (s : List ℕ) (n : ℕ) → n ≤ length s → slice s 0 n ≡ ok (take n s)
unfolding slice
slice-front s n h =
    let same : n - 0 ≡ n = omega arith in
    rw (le→leb 0 n (omega arith), le→leb n (length s) h, same) refl

module _ (s : List ℕ) where
  is_handshake-Returns :
      (start : List ℕ) (kind : ℕ)
      → Returns (λ b. b ≡ true → 6 ≤ length s) (is_handshake start kind s)
  unfolding is_handshake
  is_handshake-Returns start kind =
      if-Returns (λ b. b ≡ true → 6 ≤ length s) (leb 6 (length s) && starts_with s start) _ _
        (λ e.
          bind-Returns (λ _. Unit {0}) (λ b. b ≡ true → 6 ≤ length s) (index s 5) _
            (index-Returns s 5 (six e)) (λ b _ h. six e))
        (λ e h. cc)
    where
      six : (leb 6 (length s) && starts_with s start) ≡ true → 6 ≤ length s
      six e = ground (arith, e)

  read_cipher-Counted :
      (t₀ t : TrafficState) (hello : ℕ)
      → Counted t₀ t
      → Returns (Counted t₀) (read_cipher t s hello)
  unfolding read_cipher
  read_cipher-Counted t₀ t hello h =
      let C = Counted t₀ in
      if-Returns C (leb 79 (length s) && leb 79 hello) _ _
        (λ e.
          bind-Returns (λ _. Unit {0}) C (index s 43) _ (index-Returns s 43 (ground (arith, e)))
            (λ n _.
              if-Returns C (leb (44 + n + 2) (length s)) _ _
                (λ k.
                  let room = leb→le (44 + n + 2) (length s) k in
                  bind-Returns (λ _. Unit {0}) C (index s (44 + n)) _
                    (index-Returns s (44 + n) (omega (arith, room)))
                    (λ hi _.
                      bind-Returns (λ _. Unit {0}) C (index s (44 + n + 1)) _
                        (index-Returns s (44 + n + 1) (omega (arith, room))) (λ lo _. h)))
                (λ k. h)))
        (λ e. h)

  server_hello-Counted :
      (t₀ t : TrafficState) → 6 ≤ length s → Counted t₀ t → Returns (Counted t₀) (server_hello t s)
  unfolding server_hello
  server_hello-Counted t₀ t h (same, xtls, fewer, seen) =
      bind-Returns (λ _. Unit {0}) (Counted t₀) (index s 3) _ (index-Returns s 3 (omega (arith, h)))
        (λ hi _.
          bind-Returns (λ _. Unit {0}) (Counted t₀) (index s 4) _
            (index-Returns s 4 (omega (arith, h)))
            (λ lo _.
              read_cipher-Counted t₀
                (record t {
                  remaining_server_hello = pos (from_be_u16 hi lo + 5);
                  is_tls12_or_above = true;
                  is_tls = true;
                })
                (from_be_u16 hi lo + 5) (same, xtls, fewer, (λ _ _. refl))))

  counted : (t₀ u : TrafficState) (is_downlink : Bool) → Counted t₀ u → Filtered t₀ s is_downlink u
  counted t₀ u is_downlink (same, xtls, fewer, seen) = (same, inl xtls, fewer, seen)

  scan_hello-Filtered :
      (t₀ u : TrafficState) (n : ℕ)
      → Counted t₀ u
      → (HelloSeen t₀ → u.is_tls12_or_above ≡ true)
      → Returns (Filtered t₀ s true) (scan_hello u s n)
  unfolding scan_hello
  scan_hello-Filtered t₀ u n (same, xtls, fewer, seen) above =
      let end = min n (length s) in
      let left = wrapping_sub_i32 n (length s) in
      rw (slice-front s end (omega arith))
        (elim (Bool-cases (contains_text (take end s) tls13_supported_versions)) [
          | inl offered ↦ rw offered (elim (Bool-cases (u.cipher == 0x1305)) [
            | inl weak ↦ rw weak (same, inl xtls, omega arith, λ ok₀ _. above ok₀)
            | inr fine ↦ rw fine (
              same,
              inr (refl, (end, offered), λ ok₀. (ground (arith, fine), refl, above ok₀)),
              omega arith,
              λ ok₀ _. above ok₀,
            )
          ])
          | inr not_offered ↦ rw not_offered (elim (Bool-cases (is_positive left)) [
            | inl more ↦ rw more (same, inl xtls, fewer, λ ok₀ _. above ok₀)
            | inr done ↦ rw done (same, inl xtls, omega arith, λ ok₀ _. above ok₀)
          ])
        ])

  scan_if_left-Filtered :
      (t₀ u : TrafficState) → Counted t₀ u → Returns (Filtered t₀ s true) (scan_if_left u s)
  unfolding scan_if_left
  scan_if_left-Filtered t₀ u h = at u.remaining_server_hello refl
    where
      at :
          (z : ℤ)
          → u.remaining_server_hello ≡ z
          → Returns
              (Filtered t₀ s true)
              (elim z [ negsuc n ↦ ok u | pos n ↦ if ltb 0 n then scan_hello u s n else ok u ])
      at (negsuc n) e = counted t₀ u true h
      at (pos n) e =
          if-Returns (Filtered t₀ s true) (ltb 0 n) _ _
            (λ some_left.
              scan_hello-Filtered t₀ u n h (λ ok₀. h.3 ok₀ (ap is_positive e ∙ some_left)))
            (λ none_left. counted t₀ u true h)

-- A chunk changes nothing where there is nothing to filter, and is else filtered.
abbrev Step : TrafficState → List ℕ → Bool → TrafficState → Type 0
Step t s is_downlink u =
    ((t.packets_to_filter == 0 || is_empty s ≡ true) × (u ≡ t))
    ⊎ ((t.packets_to_filter == 0 || is_empty s ≡ false) × Filtered t s is_downlink u)

filter_tls-Step :
    (t : TrafficState) (s : List ℕ) (is_downlink : Bool)
    → Returns (Step t s is_downlink) (filter_tls t s is_downlink)
unfolding filter_tls
filter_tls-Step t s is_downlink =
    let P = Step t s is_downlink in
    let t₁ : TrafficState = record t { packets_to_filter = t.packets_to_filter - 1 } in
    let c₁ : Counted t t₁ = (refl, refl, omega arith, λ ok₀. ok₀) in
    if-Returns P (t.packets_to_filter == 0 || is_empty s) _ _ (λ e. inl (e, refl))
      (λ e.
        if-Returns P (not is_downlink) _ _
          (λ up.
            bind-Returns _ P (is_handshake tls_client_handshake_start 0x01 s) _
              (is_handshake-Returns s tls_client_handshake_start 0x01)
              (λ b _. inr (
                e,
                counted s t (if b then record t₁ { is_tls = true } else t₁) is_downlink (client b),
              )))
          (λ down.
            bind-Returns _ P (is_handshake tls_server_handshake_start 0x02 s) _
              (is_handshake-Returns s tls_server_handshake_start 0x02)
              (λ b six.
                bind-Returns (Counted t) P (if b then server_hello t₁ s else ok t₁) _
                  (if-Returns (Counted t) b _ _
                    (λ yes_hello. server_hello-Counted s t t₁ (six yes_hello) c₁) (λ no_hello. c₁))
                  (λ u c.
                    weaken-Returns (Filtered t s true) P (scan_if_left u s)
                      (scan_if_left-Filtered s t u c)
                      (λ u' f. inr (e, downlink is_downlink u' down f))))))
  where
    downlink :
        (d : Bool) (u : TrafficState) → not d ≡ false → Filtered t s true u → Filtered t s d u
    downlink true u h f = f
    downlink false u h f = cc

    client :
        (b : Bool)
        → let t₁ : TrafficState = record t { packets_to_filter = t.packets_to_filter - 1 } in
          Counted t (if b then record t₁ { is_tls = true } else t₁)
    client true = (refl, refl, omega arith, λ ok₀. ok₀)
    client false = (refl, refl, omega arith, λ ok₀. ok₀)

pub filter_tls-user :
    (t : TrafficState) (s : List ℕ) (is_downlink : Bool)
    → Returns (λ (u : TrafficState). u.user_uuid ≡ t.user_uuid) (filter_tls t s is_downlink)
filter_tls-user t s is_downlink =
    weaken-Returns (Step t s is_downlink) _ (filter_tls t s is_downlink)
      (filter_tls-Step t s is_downlink) same_user
  where
    same_user : (u : TrafficState) → Step t s is_downlink u → u.user_uuid ≡ t.user_uuid
    same_user u (inl (e, same)) = ap (λ (v : TrafficState). v.user_uuid) same
    same_user u (inr (e, f)) = f.0

-- One chunk after the other, with the direction of each.
unfoldable pub filter_each : TrafficState → List (List ℕ × Bool) → Io TrafficState
filter_each t [] = ok t
filter_each t ((s, is_downlink) ∷ more) = do u ← filter_tls t s is_downlink; filter_each u more

-- Some chunk downwards offers TLS 1.3.
abbrev pub Offered : List (List ℕ × Bool) → Type 0
Offered [] = ⊥
Offered ((s, is_downlink) ∷ more) = ((is_downlink ≡ true) × Offers s) ⊎ Offered more

-- How many chunks are not empty.
abbrev pub filled : List (List ℕ × Bool) → ℕ
filled [] = 0
filled ((s, is_downlink) ∷ more) = if is_empty s then filled more else suc (filled more)

-- XTLS is only ever on as it is allowed.
abbrev Sound : TrafficState → Type 0
Sound t = t.enable_xtls ≡ true → Allowed t

abbrev Run : TrafficState → List (List ℕ × Bool) → TrafficState → Type 0
Run t chunks u =
    (u.packets_to_filter ≤ t.packets_to_filter - filled chunks)
    × Sound u
    × (u.enable_xtls ≡ true → (t.enable_xtls ≡ true) ⊎ Offered chunks)

-- A state of the filter behind these chunks.
abbrev pub FilteredFromNew : List (List ℕ × Bool) → TrafficState → Type 0
FilteredFromNew chunks u =
    (u.packets_to_filter ≤ 8 - filled chunks)
    × ((u.enable_xtls ≡ false) ⊎ ((u.enable_xtls ≡ true) × Offered chunks × Allowed u))
