-- ===== src/Vless/Encryption/Examples.antt =====
-- src/protocol/vless/encryption on concrete records and tickets, and the theorems about them there.
use mathlib.Core.List.{append-nil}
use elise_backend.Prelude.{
  ℕ, ◌*◌, ◌^◌, ◌≡◌, ◌≢◌, refl, ap, ◌∙◌, List, [], ◌∷◌, ◌++◌, arith, take, drop, take-append-drop,
}
use elise_backend.Prelude.Text.{bytes_eq}
use elise_backend.Prelude.Map.{get, insert, bytes_eq_instance}
use elise_backend.Vless.Encryption.Xor.{Aes256Ctr, new_ctr, count_up, XorFilter, new_filter}
use elise_backend.Vless.Encryption.Xor.Bytewise.{direction}
use elise_backend.Vless.Encryption.Xor.RoundTrip.{
  outgoing, incoming, with_outgoing, concat, filter_out_each, filter_in_each,
  filter_in_each-filter_out_each,
}
use elise_backend.Vless.Encryption.Xor.Records.{records, hidden, filter_out_each-records}
use elise_backend.Vless.Encryption.Mlkem.{
  byte_encode_12, byte_decode_12, compress_and_encode_1, compress_and_encode_10,
  decode_and_decompress_10,
}
use elise_backend.Vless.Encryption.Mlkem.Words.{byte_decode_12-byte_encode_12}
use elise_backend.Vless.Encryption.Mlkem.Message.{Near, byte, end, compress_and_encode_1-Near}
use elise_backend.Prelude.{inl, inr}
use elise_backend.Prelude.{length}
use elise_backend.Vless.Encryption.Session.{
  SessionStore, new_store, sweep, insert_ticket, granted, validate_and_record_nfs_key,
}
use elise_backend.Vless.Encryption.Session.Invariant.{
  Operation, inserts, validates, perform, perform_all, IsValid, new_store-IsValid, perform-IsValid,
}
use elise_backend.Vless.Encryption.Session.Replay.{granted_once}

-- In place of AES a cipher that gives the counter itself.
abbrev cipher : Aes256Ctr
cipher = new_ctr (λ key block. block) (λ key. key) [] (1 ∷ 2 ∷ 3 ∷ 4 ∷ 5 ∷ 6 ∷ [])

abbrev sender : XorFilter
sender = new_filter cipher cipher 0 0

-- Three bytes come before the first header.
abbrev sender_behind : XorFilter
sender_behind = new_filter cipher cipher 3 0

abbrev receiver_behind : XorFilter
receiver_behind = new_filter cipher cipher 0 3

abbrev body : List ℕ
body = 1 ∷ 2 ∷ 3 ∷ 4 ∷ 5 ∷ 6 ∷ 7 ∷ 8 ∷ 9 ∷ 10 ∷ 11 ∷ 12 ∷ 13 ∷ 14 ∷ 15 ∷ 16 ∷ 17 ∷ []

abbrev bufs : List (List ℕ)
bufs = (9 ∷ 9 ∷ []) ∷ (9 ∷ 23 ∷ 3 ∷ []) ∷ (3 ∷ 0 ∷ 17 ∷ body ++ 23 ∷ []) ∷ []

abbrev sent : List ℕ
sent = (filter_out_each sender_behind bufs).0

abbrev pieces : List (List ℕ)
pieces = take 7 sent ∷ drop 7 sent ∷ []

filter_in_each-filter_out_each_example :
    ((filter_in_each receiver_behind pieces).0 ≡ concat bufs)
    × (incoming (filter_in_each receiver_behind pieces).1
        ≡ outgoing (filter_out_each sender_behind bufs).1)
filter_in_each-filter_out_each_example =
    filter_in_each-filter_out_each sender_behind receiver_behind bufs pieces refl (omega arith)
      (ap (λ t. take 7 sent ++ t) (append-nil (drop 7 sent)) ∙ take-append-drop 7 sent)

abbrev two_records : List (List ℕ)
two_records = body ∷ (0 ∷ body) ∷ []

filter_out_each-records_example : filter_out_each sender (records two_records ∷ []) ≡ (
  (hidden cipher two_records).0,
  with_outgoing sender (direction (hidden cipher two_records).1 0 []),
)
filter_out_each-records_example =
    filter_out_each-records sender two_records (records two_records ∷ [])
      ((omega arith, omega arith), ((omega arith, omega arith), tt)) refl
      (append-nil (records two_records))

counted : (count_up (1 ∷ 255 ∷ 255 ∷ [])).0 ≡ 2 ∷ 0 ∷ 0 ∷ []
unfolding count_up
counted = refl

abbrev ticket : List ℕ
ticket = 85 ∷ 85 ∷ []

abbrev store : SessionStore
store = insert_ticket ticket (170 ∷ []) (60 * 10 ^ 9) 1000 (new_store 0)

store-IsValid : IsValid store
store-IsValid =
    perform-IsValid (inserts ticket (170 ∷ []) (60 * 10 ^ 9) 1000) (new_store 0)
      (new_store-IsValid 0)

perform-IsValid_example : IsValid (perform (validates ticket (17 ∷ []) 2000) store)
perform-IsValid_example = perform-IsValid (validates ticket (17 ∷ []) 2000) store store-IsValid

first_use : (validate_and_record_nfs_key ticket (17 ∷ []) 2000 store).0 ≡ granted (170 ∷ [])
unfolding validate_and_record_nfs_key insert_ticket sweep get insert bytes_eq
first_use = refl

abbrev operations : List Operation
operations = inserts (7 ∷ []) (1 ∷ []) 5 40000000000 ∷ validates ticket (34 ∷ []) 40000000001 ∷ []

granted_once_example :
    (validate_and_record_nfs_key ticket
      (17 ∷ [])
      50000000000
      (perform_all operations (validate_and_record_nfs_key ticket (17 ∷ []) 2000 store).1)).0
    ≢ granted (170 ∷ [])
granted_once_example =
    granted_once ticket (17 ∷ []) 2000 50000000000 operations store (170 ∷ []) (170 ∷ [])
      store-IsValid first_use (other, (λ h. h, tt))
  where
    other : 7 ∷ [] ≡ ticket → ⊥
    other h = cc

byte_decode_12-byte_encode_12_example :
    (byte_decode_12 (byte_encode_12 (3328 ∷ 1 ∷ 257 ∷ 2049 ∷ [])) ≡ 3328 ∷ 1 ∷ 257 ∷ 2049 ∷ [])
    × (length (byte_encode_12 (3328 ∷ 1 ∷ 257 ∷ 2049 ∷ [])) ≡ 3 * 2)
byte_decode_12-byte_encode_12_example =
    byte_decode_12-byte_encode_12 2 (3328 ∷ 1 ∷ 257 ∷ 2049 ∷ []) refl
      (omega arith, (omega arith, (omega arith, (omega arith, tt))))

compressed :
    compress_and_encode_10 (decode_and_decompress_10 (1 ∷ 200 ∷ 3 ∷ 255 ∷ 77 ∷ []))
    ≡ 1 ∷ 200 ∷ 3 ∷ 255 ∷ 77 ∷ []
unfolding compress_and_encode_10 decode_and_decompress_10
compressed = refl

-- The byte 165, with errors of up to 832 on its coefficients.
abbrev disturbed : List ℕ
disturbed = 2496 ∷ 832 ∷ 1665 ∷ 2497 ∷ 3328 ∷ 833 ∷ 5 ∷ 1700 ∷ []

disturbed-Near : Near (165 ∷ []) disturbed
disturbed-Near =
    byte 165 2496 832 1665 2497 3328 833 5 1700 [] []
      (omega arith, inr (refl, omega arith, omega arith))
      (omega arith, inl (refl, inl (omega arith)))
      (omega arith, inr (refl, omega arith, omega arith))
      (omega arith, inl (refl, inr (omega arith))) (omega arith, inl (refl, inr (omega arith)))
      (omega arith, inr (refl, omega arith, omega arith))
      (omega arith, inl (refl, inl (omega arith)))
      (omega arith, inr (refl, omega arith, omega arith)) end

compress_and_encode_1-Near_example : compress_and_encode_1 disturbed ≡ 165 ∷ []
compress_and_encode_1-Near_example = compress_and_encode_1-Near disturbed-Near (omega arith, tt)
