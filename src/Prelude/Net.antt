-- ===== src/Prelude/Net.antt =====
-- `IpAddr` and `SocketAddr`: an address is its 32 or 128 bits as a number.
use elise_backend.Prelude.{
  ℕ, ◌/◌, ◌%◌, ◌^◌, ◌≡◌, ◌↔◌, Bool, true, false, arith, ◌==◌, if◌then◌else◌,
}
use elise_backend.Prelude.Map.{Eq}

pub data IpAddr : Type 0 where
  v4 : ℕ → IpAddr
  v6 : ℕ → IpAddr

unfoldable pub ip_eq : IpAddr → IpAddr → Bool
ip_eq (v4 a) (v4 b) = a == b
ip_eq (v4 a) (v6 b) = false
ip_eq (v6 a) (v4 b) = false
ip_eq (v6 a) (v6 b) = a == b

pub ip_eq_iff : (a b : IpAddr) → (ip_eq a b ≡ true) ↔ (a ≡ b)
unfolding ip_eq
ip_eq_iff (v4 a) (v4 b) = ground arith
ip_eq_iff (v4 a) (v6 b) = ground arith
ip_eq_iff (v6 a) (v4 b) = ground arith
ip_eq_iff (v6 a) (v6 b) = ground arith

instance abbrev pub ip_eq_instance : Eq IpAddr
ip_eq_instance = record { beq = ip_eq; beq_iff = ip_eq_iff }

-- `IpAddr::to_canonical`: an IPv4-mapped address `::ffff:a.b.c.d` is the IPv4 address.
unfoldable pub to_canonical : IpAddr → IpAddr
to_canonical (v4 a) = v4 a
to_canonical (v6 a) = if a / 2 ^ 32 == 0xffff then v4 (a % 2 ^ 32) else v6 a

pub record SocketAddr : Type 0 where
  pub ip : IpAddr
  pub port : ℕ
