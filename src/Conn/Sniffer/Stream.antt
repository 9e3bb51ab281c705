-- ===== src/Conn/Sniffer/Stream.antt =====
-- src/conn/sniffer.rs: sniffing takes nothing from the stream.
use elise_backend.Prelude.{
  ℕ, ◌≡◌, refl, Bool, true, false, not, ◌&&◌, ◌||◌, Option, none, some, List, if◌then◌else◌, Io, ok,
  err, panic, ◌>>=◌, permission_denied, take, drop, take-append-drop,
}
use mathlib.Core.Option.{map}
use elise_backend.Prelude.Strings.{is_empty}
use elise_backend.Prelude.Net.{IpAddr}
use elise_backend.Conn.ProxyStream.{PrefixedStream, new_stream}
use elise_backend.Conn.Sniffer.{
  sniff_domain, is_some, blocks, first_read, sniff_async_stream, sniff_and_detect_stream,
}
use elise_backend.Conn.Sniffer.Bounds.{Quiet, sniff_domain-Quiet}
use elise_backend.Conn.ProxyStream.Poll.{unread}

-- Whether the audit refuses what the first read gave: the check is on, something was read, and an
-- audit controller blocks it.
abbrev pub refuses : Bool → List ℕ → Option (List ℕ → Bool) → Bool
refuses detect_packet prefix audit = detect_packet && (not (is_empty prefix) && blocks audit prefix)

-- A stream that still gives all bytes of `inner` where nothing is refused, and the error where
-- something is.
unfoldable pub AllUnread : List ℕ → Bool → Io (Option (List ℕ) × PrefixedStream) → Type 0
AllUnread inner refused (ok r) = (unread r.1 ≡ inner) × (refused ≡ false)
AllUnread inner refused (err e) = (e ≡ permission_denied) × (refused ≡ true)
AllUnread inner refused panic = ⊥

choice :
    (inner : List ℕ) (refused b : Bool) (m k : Io (Option (List ℕ) × PrefixedStream))
    → (b ≡ true → AllUnread inner refused m)
    → (b ≡ false → AllUnread inner refused k)
    → AllUnread inner refused (if b then m else k)
choice inner refused true m k h g = h refl
choice inner refused false m k h g = g refl

given :
    (inner : List ℕ) (refused : Bool) (r : Option (List ℕ) × PrefixedStream)
    → unread r.1 ≡ inner
    → refused ≡ false
    → AllUnread inner refused (ok r)
unfolding AllUnread
given inner refused r h n = (h, n)

blocked :
    (inner : List ℕ) (refused : Bool)
    → refused ≡ true
    → AllUnread inner refused (err permission_denied)
unfolding AllUnread
blocked inner refused h = (refl, h)

then_stream :
    {A : Type 0} (inner : List ℕ) (refused : Bool) (m : Io A) (f : A → Option (List ℕ))
    (s : PrefixedStream)
    → Quiet m
    → unread s ≡ inner
    → refused ≡ false
    → AllUnread inner refused (m >>= λ a. ok (f a, s))
unfolding AllUnread
then_stream inner refused (ok a) f s q h n = (h, n)
then_stream inner refused (err e) f s q h n = absurd q
then_stream inner refused panic f s q h n = absurd q

unchecked : (sniff detect b : Bool) → not sniff && not detect ≡ true → detect && b ≡ false
unchecked true detect b h = cc
unchecked false true b h = cc
unchecked false false b h = refl

nothing_read : (detect empty b : Bool) → empty ≡ true → detect && (not empty && b) ≡ false
nothing_read true true b h = refl
nothing_read false true b h = refl
nothing_read detect false b h = cc

something_read :
    (detect empty b answer : Bool)
    → empty ≡ false
    → detect && b ≡ answer
    → detect && (not empty && b) ≡ answer
something_read detect true b answer h g = cc
something_read detect false b answer h g = g

-- Whatever arrives within the time of the first read, and whatever it is taken for: the stream that
-- is handed on gives all the bytes.
sniff_async_stream-AllUnread :
    (trim : List ℕ → List ℕ) (inner : List ℕ) (got : ℕ) (target_ip : Option IpAddr)
    (sniff_enabled : Bool)
    → AllUnread inner false (sniff_async_stream trim inner got target_ip sniff_enabled)
unfolding sniff_async_stream
sniff_async_stream-AllUnread trim inner got target_ip sniff_enabled =
    let prefix = take (first_read got) inner in
    choice inner false (not sniff_enabled || not (is_some target_ip)) _ _
      (λ e. given inner false (none, new_stream inner none) refl refl)
      (λ e.
        choice inner false (is_empty prefix) _ _
          (λ f. given inner false (none, new_stream inner none) refl refl)
          (λ f.
            then_stream inner false (sniff_domain trim prefix) (map (λ s. s.0))
              (new_stream (drop (first_read got) inner) (some prefix))
              (sniff_domain-Quiet trim prefix) (take-append-drop (first_read got) inner) refl))

-- Whatever arrives within the time of the first read: if the check of the first bytes is on, at
-- least one byte was read and the audit controller blocks what was read, the result is the error
-- `permission_denied`, and in every other case a stream that gives all the bytes. It never panics.
pub sniff_and_detect_stream-AllUnread :
    (trim : List ℕ → List ℕ) (inner : List ℕ) (got : ℕ) (target_ip : Option IpAddr)
    (sniff_enabled detect_packet : Bool) (audit : Option (List ℕ → Bool))
    → AllUnread inner
        (refuses detect_packet (take (first_read got) inner) audit)
        (sniff_and_detect_stream trim inner got target_ip sniff_enabled detect_packet audit)
unfolding sniff_and_detect_stream
sniff_and_detect_stream-AllUnread trim inner got target_ip sniff_enabled detect_packet audit =
    let prefix = take (first_read got) inner in
    let stream = new_stream (drop (first_read got) inner) (some prefix) in
    let all = take-append-drop (first_read got) inner in
    let refused = refuses detect_packet prefix audit in
    let b = blocks audit prefix in
    choice inner refused (not sniff_enabled && not detect_packet) _ _
      (λ e.
        given inner refused (none, new_stream inner none) refl
          (unchecked sniff_enabled detect_packet (not (is_empty prefix) && b) e))
      (λ e.
        choice inner refused (is_empty prefix) _ _
          (λ f.
            given inner refused (none, new_stream inner none) refl
              (nothing_read detect_packet (is_empty prefix) b f))
          (λ f.
            choice inner refused (detect_packet && b) _ _
              (λ g.
                blocked inner refused (something_read detect_packet (is_empty prefix) b true f g))
              (λ g.
                let passed = something_read detect_packet (is_empty prefix) b false f g in
                choice inner refused (sniff_enabled && is_some target_ip) _ _
                  (λ h.
                    then_stream inner refused (sniff_domain trim prefix) (map (λ s. s.0)) stream
                      (sniff_domain-Quiet trim prefix) all passed)
                  (λ h. given inner refused (none, stream) all passed))))
