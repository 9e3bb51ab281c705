-- ===== src/Dns/Examples.antt =====
-- src/dns/wire.rs on the messages of its tests, and the theorems about it at concrete messages.
use elise_backend.Prelude.{
  ℕ, ◌≡◌, refl, List, [], ◌∷◌, arith, ok, err, Safe, ◌⊎◌, length, invalid_input, slice, ◌≤◌,
}
use elise_backend.Prelude.Text.{codes}
use elise_backend.Prelude.Net.{v4, v6}
use elise_backend.Dns.Wire.{
  drop_while, clean_domain, split, push_labels, build_query, be_u16_at, at_label, skip_label,
  skip_labels, skip_name, skip_questions, number, push_address, rest_of_record, read_record,
  read_answers, parse_sections, parse_response,
}
use elise_backend.Dns.Wire.Bounds.{ancount, parse_response-Safe}
use elise_backend.Dns.Wire.Layout.{root, pointer, AreLabels}
use elise_backend.Dns.Wire.Answers.{Answer, addresses}
use elise_backend.Dns.Wire.Query.{HasBadLabel, query_bytes, build_query-cases}
use elise_backend.Dns.Wire.RoundTrip.{respond, parse_response-build_query}

abbrev google : List ℕ
google = codes " google.com."

abbrev google_labels : List (List ℕ)
google_labels = codes "google" ∷ codes "com" ∷ []

abbrev google_query : List ℕ
google_query = query_bytes google_labels 1 0x1234

google_is_built : build_query google 1 0x1234 ≡ ok google_query
unfolding build_query push_labels clean_domain drop_while split
google_is_built = refl

split-google : split (clean_domain google) ≡ google_labels
unfolding clean_domain drop_while split
split-google = refl

-- An alias, an address, and an IPv6 address, all behind compressed names.
abbrev google_answers : List Answer
google_answers =
    record {
      labels = codes "www" ∷ [];
      end = pointer 0xc0 0x0c;
      atype = 5;
      aclass = 1;
      ttl_high = 0;
      ttl_low = 300;
      rdata = 0xc0 ∷ 0x0c ∷ [];
    }
    ∷ record {
      labels = [];
      end = pointer 0xc0 0x0c;
      atype = 1;
      aclass = 1;
      ttl_high = 0;
      ttl_low = 300;
      rdata = 142 ∷ 250 ∷ 190 ∷ 46 ∷ [];
    }
    ∷ record {
      labels = codes "ipv6" ∷ [];
      end = root;
      atype = 28;
      aclass = 1;
      ttl_high = 0;
      ttl_low = 300;
      rdata = 0 ∷ 0 ∷ 0 ∷ 0 ∷ 0 ∷ 0 ∷ 0 ∷ 0 ∷ 0 ∷ 0 ∷ 0 ∷ 0 ∷ 0 ∷ 0 ∷ 0 ∷ 1 ∷ [];
    }
    ∷ []

abbrev google_reply : List ℕ
google_reply = respond 0x8180 google_query google_answers (7 ∷ [])

parse_google_reply : parse_response google_reply ≡ ok (v4 0x8efabe2e ∷ v6 1 ∷ [])
unfolding parse_response parse_sections read_answers read_record rest_of_record push_address number
    skip_questions skip_name skip_labels skip_label at_label be_u16_at slice
parse_google_reply = refl

parse_response-build_query_example : parse_response google_reply ≡ ok (addresses google_answers)
parse_response-build_query_example =
    parse_response-build_query google google_query 1 0x1234 0x8180 google_answers (7 ∷ [])
      google_is_built (unfold clean_domain drop_while split in omega arith) (omega arith) refl
      (
        omega arith,
        (omega arith, omega arith, tt),
        refl,
        omega arith,
        omega arith,
        omega arith,
        omega arith,
        omega arith,
        (
          omega arith,
          tt,
          refl,
          omega arith,
          omega arith,
          omega arith,
          omega arith,
          omega arith,
          (
            omega arith,
            (omega arith, omega arith, tt),
            tt,
            omega arith,
            omega arith,
            omega arith,
            omega arith,
            omega arith,
            tt,
          ),
        ),
      )
      (omega arith)

parse_response-Safe_example :
    Safe (λ ips. length ips ≤ ancount google_reply) (parse_response google_reply)
parse_response-Safe_example = parse_response-Safe google_reply

build_query-cases_example :
    (AreLabels (split (clean_domain (codes "a..b")))
      × (build_query (codes "a..b") 28 7
          ≡ ok (query_bytes (split (clean_domain (codes "a..b"))) 28 7)))
    ⊎ (HasBadLabel (split (clean_domain (codes "a..b")))
        × (build_query (codes "a..b") 28 7 ≡ err invalid_input))
build_query-cases_example = build_query-cases (codes "a..b") 28 7
