-- ===== src/Conn/Sniffer/Extensions.antt =====
-- src/conn/sniffer.rs: the server name among the extensions of a ClientHello.
use mathlib.Core.Path.{subst}
use mathlib.Core.List.{append_assoc}
use elise_backend.Prelude.{
  ℕ, zero, suc, ◌+◌, ◌*◌, ◌/◌, ◌%◌, ◌^◌, ◌≤◌, ◌<◌, ◌≡◌, refl, ap, ◌∙◌, min, true, none, some, List,
  [], ◌∷◌, ◌++◌, arith, ok, length, length-append, le→leb, ==_iff,
}
use elise_backend.Prelude.Bytes.{to_be_u16, All}
use elise_backend.Prelude.Position.{At, At-append, At-index, At-slice}
use elise_backend.Prelude.Text.{is_utf8}
use elise_backend.Conn.Sniffer.{be_at, name_or, server_names, in_extension, found_or, extensions}

-- An extension of another type, with its content.
abbrev pub Other : ℕ × List ℕ → Type 0
Other e = (0 < e.0) × (e.0 < 2 ^ 16) × (length e.1 < 2 ^ 16)

abbrev pub extension_bytes : ℕ → List ℕ → List ℕ
extension_bytes kind content = to_be_u16 kind ++ (to_be_u16 (length content) ++ content)

abbrev pub extensions_bytes : List (ℕ × List ℕ) → List ℕ
extensions_bytes [] = []
extensions_bytes (e ∷ es) = extension_bytes e.0 e.1 ++ extensions_bytes es

-- The list with one host name.
abbrev pub server_name_bytes : List ℕ → List ℕ
server_name_bytes host = to_be_u16 (3 + length host) ++ (0 ∷ (to_be_u16 (length host) ++ host))

word : (n : ℕ) → n < 2 ^ 16 → (n / 256 % 256) * 256 + n % 256 ≡ n
word n h = omega arith

module _ (buf : List ℕ) where
  pub be_at-At :
      (pos n : ℕ) (s : List ℕ) → n < 2 ^ 16 → At buf pos (to_be_u16 n ++ s) → be_at buf pos ≡ ok n
  unfolding be_at
  be_at-At pos n s h a =
      rw
        (
          At-index buf pos (n / 256 % 256) ((n % 256) ∷ s) a,
          At-index buf (pos + 1) (n % 256) s
              (At-append buf pos ((n / 256 % 256) ∷ []) ((n % 256) ∷ s) (pos + 1) a refl),
          word n h,
        )
        refl

  server_names-At :
      (fuel pos list_end : ℕ) (host s : List ℕ)
      → 3 + length host < 2 ^ 16
      → is_utf8 host ≡ true
      → pos + 3 + length host ≤ list_end
      → At buf pos (0 ∷ (to_be_u16 (length host) ++ (host ++ s)))
      → server_names (suc fuel) buf pos list_end ≡ ok (some host)
  unfolding server_names name_or
  server_names-At fuel pos list_end host s h text room a =
      let name = At-append buf pos (0 ∷ to_be_u16 (length host)) (host ++ s) (pos + 3) a refl in
      rw
        (
          le→leb (pos + 3) list_end (omega arith),
          At-index buf pos 0 (to_be_u16 (length host) ++ (host ++ s)) a,
          be_at-At (pos + 1) (length host) (host ++ s) (omega arith) (
              At-append buf pos (0 ∷ []) (to_be_u16 (length host) ++ (host ++ s)) (pos + 1) a refl),
          le→leb (pos + 3 + length host) list_end room,
          At-slice buf (pos + 3) host s (pos + 3 + length host) name refl,
          text,
        )
        refl

  in_extension-At :
      (pos end_ext : ℕ) (host s : List ℕ)
      → 3 + length host < 2 ^ 16
      → is_utf8 host ≡ true
      → pos + 5 + length host ≤ end_ext
      → At buf pos (server_name_bytes host ++ s)
      → in_extension buf pos end_ext 0 ≡ ok (some host)
  unfolding in_extension
  in_extension-At pos end_ext host s h text room a =
      let names =
        At-append buf pos (to_be_u16 (3 + length host))
          (0 ∷ (to_be_u16 (length host) ++ (host ++ s))) (pos + 2)
          (
            a.0,
            a.1
                ∙ ap (λ t. to_be_u16 (3 + length host) ++ (0 ∷ (to_be_u16 (length host) ++ t)))
                    refl,
          )
          refl in
      rw
        (
          le→leb (pos + 2) end_ext (omega arith),
          be_at-At pos (3 + length host) (0 ∷ (to_be_u16 (length host) ++ (host ++ s))) h a,
          server_names-At (length buf) (pos + 2) (min (pos + 2 + (3 + length host)) end_ext) host s
              h text (omega arith) names,
        )
        refl

  other-At : (pos end_ext kind : ℕ) → 0 < kind → in_extension buf pos end_ext kind ≡ ok none
  unfolding in_extension
  other-At pos end_ext kind h = ground (arith, ==_iff kind 0)

  -- The type and the size of an extension, and where its content is.
  extension-At :
      (pos kind : ℕ) (content s : List ℕ)
      → kind < 2 ^ 16
      → length content < 2 ^ 16
      → At buf pos (extension_bytes kind content ++ s)
      → (be_at buf pos ≡ ok kind)
        × (be_at buf (pos + 2) ≡ ok (length content))
        × At buf (pos + 4) (content ++ s)
  extension-At pos kind content s hk hc a =
      let size =
        At-append buf pos (to_be_u16 kind) (to_be_u16 (length content) ++ (content ++ s)) (pos + 2)
          a refl in
      (
        be_at-At pos kind (to_be_u16 (length content) ++ (content ++ s)) hk a,
        be_at-At (pos + 2) (length content) (content ++ s) hc size,
        At-append buf (pos + 2) (to_be_u16 (length content)) (content ++ s) (pos + 4) size
            (omega arith),
      )

  pub extensions-At :
      (fuel pos end_ext : ℕ) (es : List (ℕ × List ℕ)) (host s : List ℕ)
      → All Other es
      → 5 + length host < 2 ^ 16
      → is_utf8 host ≡ true
      → length es < fuel
      → pos + length (extensions_bytes es) + 9 + length host ≤ end_ext
      → At buf pos (extensions_bytes es ++ (extension_bytes 0 (server_name_bytes host) ++ s))
      → extensions fuel buf pos end_ext ≡ ok (some host)
  unfolding extensions found_or
  extensions-At zero pos end_ext es host s others h text more room a = absurd (omega arith)
  extensions-At (suc fuel) pos end_ext [] host s others h text more room a =
      let content = server_name_bytes host in
      let parts = extension-At pos 0 content s (omega arith) (omega arith) a in
      rw
        (
          le→leb (pos + 4) end_ext (omega arith),
          parts.0,
          parts.1,
          in_extension-At (pos + 4) end_ext host s (omega arith) text (omega arith) (parts.2),
        )
        refl
  extensions-At (suc fuel) pos end_ext (e ∷ es) host s others h text more room a =
      let tail = extensions_bytes es ++ (extension_bytes 0 (server_name_bytes host) ++ s) in
      let parts = extension-At pos e.0 e.1 tail (others.0.1) (others.0.2) (
        subst (At buf pos)
          (append_assoc (extension_bytes e.0 e.1) (extensions_bytes es)
            (extension_bytes 0 (server_name_bytes host) ++ s))
          a) in
      let next = At-append buf (pos + 4) e.1 tail (pos + 4 + length e.1) (parts.2) refl in
      rw
        (
          le→leb (pos + 4) end_ext (omega arith),
          parts.0,
          parts.1,
          other-At (pos + 4) end_ext e.0 (others.0.0),
          extensions-At fuel (pos + 4 + length e.1) end_ext es host s (others.1) h text
              (omega arith)
              (omega (arith, room, length-append (extension_bytes e.0 e.1) (extensions_bytes es)))
              next,
        )
        refl
