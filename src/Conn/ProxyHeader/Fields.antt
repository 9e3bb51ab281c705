-- ===== src/Conn/ProxyHeader/Fields.antt =====
-- The addresses in a PROXY header of version 2, read where they were written.
use elise_backend.Prelude.{
  ℕ, ◌+◌, ◌*◌, ◌/◌, ◌%◌, ◌^◌, ◌≤◌, ◌<◌, ◌≡◌, refl, ap, List, [], ◌∷◌, ◌++◌, arith, ok, length,
}
use elise_backend.Prelude.Bytes.{
  from_be_u16, to_be_u16, to_be_bytes, from_be_bytes, length-to_be_bytes, from-to_be_bytes,
}
use elise_backend.Prelude.Net.{IpAddr, v4, v6, SocketAddr}
use elise_backend.Prelude.Position.{At, At-append, At-index, At-slice, index-below, slice-below}
use elise_backend.Conn.ProxyHeader.{port_from, v4_from, v6_from}

abbrev pub IsAddr : IpAddr → Type 0
IsAddr (v4 a) = a < 2 ^ 32
IsAddr (v6 a) = a < 2 ^ 128

abbrev pub IsSocketAddr : SocketAddr → Type 0
IsSocketAddr a = IsAddr a.ip × (a.port < 2 ^ 16)

-- Two addresses and their ports, of `k` bytes each.
abbrev pub pair_bytes : ℕ → ℕ → ℕ → ℕ → ℕ → List ℕ → List ℕ
pair_bytes k s sport d dport rest =
    to_be_bytes k s ++ (to_be_bytes k d ++ (to_be_u16 sport ++ (to_be_u16 dport ++ rest)))

module _ (buf : List ℕ) where
  pub port_from-At :
      (pos n : ℕ) (s : List ℕ)
      → n < 2 ^ 16
      → At buf pos (to_be_u16 n ++ s)
      → port_from buf pos ≡ ok n
  unfolding port_from
  port_from-At pos n s hn h =
      let r = At-append buf pos (n / 256 % 256 ∷ []) (n % 256 ∷ s) (pos + 1) h refl in
      rw (At-index buf pos _ _ h, At-index buf (pos + 1) _ _ r) (ap ok (omega arith))

  v4_from-At :
      (pos port_at a port : ℕ) (s t : List ℕ)
      → a < 2 ^ 32
      → port < 2 ^ 16
      → At buf pos (to_be_bytes 4 a ++ s)
      → At buf port_at (to_be_u16 port ++ t)
      → v4_from buf pos port_at ≡ ok (record { ip = v4 a; port = port })
  unfolding v4_from
  v4_from-At pos port_at a port s t ha hp h k =
      rw
        (
          At-slice buf pos (to_be_bytes 4 a) s (pos + 4) h refl,
          port_from-At port_at port t hp k,
          from-to_be_bytes 4 a ha,
        )
        refl

  v6_from-At :
      (pos port_at a port : ℕ) (s t : List ℕ)
      → a < 2 ^ 128
      → port < 2 ^ 16
      → At buf pos (to_be_bytes 16 a ++ s)
      → At buf port_at (to_be_u16 port ++ t)
      → v6_from buf pos port_at ≡ ok (record { ip = v6 a; port = port })
  unfolding v6_from
  v6_from-At pos port_at a port s t ha hp h k =
      rw
        (
          At-slice buf pos (to_be_bytes 16 a) s (pos + 16) h
              (omega (arith, length-to_be_bytes 16 a)),
          port_from-At port_at port t hp k,
          from-to_be_bytes 16 a ha,
        )
        refl

  -- Where the four parts of a pair stand.
  pair-At :
      (pos k s sport d dport : ℕ) (rest : List ℕ)
      → At buf pos (pair_bytes k s sport d dport rest)
      → At buf (pos + k) (to_be_bytes k d ++ (to_be_u16 sport ++ (to_be_u16 dport ++ rest)))
        × At buf (pos + 2 * k) (to_be_u16 sport ++ (to_be_u16 dport ++ rest))
        × At buf (pos + 2 * k + 2) (to_be_u16 dport ++ rest)
  pair-At pos k s sport d dport rest h =
      let ports = to_be_u16 sport ++ (to_be_u16 dport ++ rest) in
      let h₁ =
        At-append buf pos (to_be_bytes k s) (to_be_bytes k d ++ ports) (pos + k) h
          (omega (arith, length-to_be_bytes k s)) in
      let h₂ =
        At-append buf (pos + k) (to_be_bytes k d) ports (pos + 2 * k) h₁
          (omega (arith, length-to_be_bytes k d)) in
      (
        h₁,
        h₂,
        At-append buf (pos + 2 * k) (to_be_u16 sport) (to_be_u16 dport ++ rest) (pos + 2 * k + 2) h₂
            refl,
      )

pub pair-v4 :
    (buf : List ℕ) (pos s sport d dport : ℕ) (rest : List ℕ)
    → s < 2 ^ 32
    → sport < 2 ^ 16
    → d < 2 ^ 32
    → dport < 2 ^ 16
    → At buf pos (pair_bytes 4 s sport d dport rest)
    → (v4_from buf pos (pos + 8) ≡ ok (record { ip = v4 s; port = sport }))
      × (v4_from buf (pos + 4) (pos + 10) ≡ ok (record { ip = v4 d; port = dport }))
pair-v4 buf pos s sport d dport rest hs hsp hd hdp h =
    let p = pair-At buf pos 4 s sport d dport rest h in
    let q : At buf (pos + 8) (to_be_u16 sport ++ (to_be_u16 dport ++ rest)) = p.1 in
    let r : At buf (pos + 10) (to_be_u16 dport ++ rest) =
      At-append buf (pos + 8) (to_be_u16 sport) (to_be_u16 dport ++ rest) (pos + 10) q
        (omega arith) in
    (
      v4_from-At buf pos (pos + 8) s sport _ _ hs hsp h q,
      v4_from-At buf (pos + 4) (pos + 10) d dport _ _ hd hdp p.0 r,
    )

pub pair-v6 :
    (buf : List ℕ) (pos s sport d dport : ℕ) (rest : List ℕ)
    → s < 2 ^ 128
    → sport < 2 ^ 16
    → d < 2 ^ 128
    → dport < 2 ^ 16
    → At buf pos (pair_bytes 16 s sport d dport rest)
    → (v6_from buf pos (pos + 32) ≡ ok (record { ip = v6 s; port = sport }))
      × (v6_from buf (pos + 16) (pos + 34) ≡ ok (record { ip = v6 d; port = dport }))
pair-v6 buf pos s sport d dport rest hs hsp hd hdp h =
    let p = pair-At buf pos 16 s sport d dport rest h in
    let q : At buf (pos + 32) (to_be_u16 sport ++ (to_be_u16 dport ++ rest)) = p.1 in
    let r : At buf (pos + 34) (to_be_u16 dport ++ rest) =
      At-append buf (pos + 32) (to_be_u16 sport) (to_be_u16 dport ++ rest) (pos + 34) q
        (omega arith) in
    (
      v6_from-At buf pos (pos + 32) s sport _ _ hs hsp h q,
      v6_from-At buf (pos + 16) (pos + 34) d dport _ _ hd hdp p.0 r,
    )

-- Within the buffer, the reads give something.
pub port_from-below :
    (buf : List ℕ) (pos : ℕ) → pos + 1 < length buf → (n : ℕ) × (port_from buf pos ≡ ok n)
unfolding port_from
port_from-below buf pos h =
    let hi = index-below buf pos (omega arith) in
    let lo = index-below buf (pos + 1) h in (from_be_u16 hi.0 lo.0, rw (hi.1, lo.1))

pub v4_from-below :
    (buf : List ℕ) (pos port_at : ℕ)
    → pos + 4 ≤ length buf
    → port_at + 1 < length buf
    → (a : SocketAddr) × (v4_from buf pos port_at ≡ ok a)
unfolding v4_from
v4_from-below buf pos port_at h k =
    let o = slice-below buf pos (pos + 4) (omega arith) h in
    let p = port_from-below buf port_at k in
    (record { ip = v4 (from_be_bytes o.0); port = p.0 }, rw (o.1, p.1) refl)

pub v6_from-below :
    (buf : List ℕ) (pos port_at : ℕ)
    → pos + 16 ≤ length buf
    → port_at + 1 < length buf
    → (a : SocketAddr) × (v6_from buf pos port_at ≡ ok a)
unfolding v6_from
v6_from-below buf pos port_at h k =
    let o = slice-below buf pos (pos + 16) (omega arith) h in
    let p = port_from-below buf port_at k in
    (record { ip = v6 (from_be_bytes o.0); port = p.0 }, rw (o.1, p.1) refl)
