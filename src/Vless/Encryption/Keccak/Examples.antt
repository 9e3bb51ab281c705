-- ===== src/Vless/Encryption/Keccak/Examples.antt =====
-- src/protocol/vless/encryption/mlkem768.rs: digests that are known, and the absorbing of an input
-- in two parts.
use elise_backend.Prelude.{ℕ, zero, suc, ◌≡◌, refl, List, [], ◌∷◌, ◌++◌, arith}
use elise_backend.Vless.Encryption.Keccak.{
  keccak_f1600, new_sponge, absorb, sha3_256, sha3_512, shake256,
}
use elise_backend.Vless.Encryption.Keccak.Absorb.{HasRoom, absorb-append}

-- FIPS 202 on nothing, on "abc", and on more than one block, with more than one block out.
sha3_256_of_nothing :
    sha3_256 []
    ≡ 167 ∷ 255 ∷ 198 ∷ 248 ∷ 191 ∷ 30 ∷ 215 ∷ 102 ∷ 81 ∷ 193 ∷ 71 ∷ 86 ∷ 160 ∷ 97 ∷ 214 ∷ 98 ∷ 245
      ∷ 128 ∷ 255 ∷ 77 ∷ 228 ∷ 59 ∷ 73 ∷ 250 ∷ 130 ∷ 216 ∷ 10 ∷ 75 ∷ 128 ∷ 248 ∷ 67 ∷ 74 ∷ []
unfolding sha3_256 keccak_f1600
sha3_256_of_nothing = refl

sha3_512_of_abc :
    sha3_512 (97 ∷ 98 ∷ 99 ∷ [])
    ≡ 183 ∷ 81 ∷ 133 ∷ 11 ∷ 26 ∷ 87 ∷ 22 ∷ 138 ∷ 86 ∷ 147 ∷ 205 ∷ 146 ∷ 75 ∷ 107 ∷ 9 ∷ 110 ∷ 8 ∷ 246
      ∷ 33 ∷ 130 ∷ 116 ∷ 68 ∷ 247 ∷ 13 ∷ 136 ∷ 79 ∷ 93 ∷ 2 ∷ 64 ∷ 210 ∷ 113 ∷ 46 ∷ 16 ∷ 225 ∷ 22
      ∷ 233 ∷ 25 ∷ 42 ∷ 243 ∷ 201 ∷ 26 ∷ 126 ∷ 197 ∷ 118 ∷ 71 ∷ 227 ∷ 147 ∷ 64 ∷ 87 ∷ 52 ∷ 11 ∷ 76
      ∷ 244 ∷ 8 ∷ 213 ∷ 165 ∷ 101 ∷ 146 ∷ 248 ∷ 39 ∷ 78 ∷ 236 ∷ 83 ∷ 240 ∷ []
unfolding sha3_512 keccak_f1600
sha3_512_of_abc = refl

abbrev ones : ℕ → List ℕ
ones zero = []
ones (suc n) = 1 ∷ ones n

shake256_of_ones :
    shake256 (ones 140) 140
    ≡ 109 ∷ 25 ∷ 58 ∷ 138 ∷ 60 ∷ 212 ∷ 80 ∷ 129 ∷ 168 ∷ 140 ∷ 254 ∷ 45 ∷ 232 ∷ 224 ∷ 60 ∷ 49 ∷ 228
      ∷ 241 ∷ 127 ∷ 92 ∷ 199 ∷ 21 ∷ 8 ∷ 89 ∷ 244 ∷ 20 ∷ 22 ∷ 176 ∷ 86 ∷ 121 ∷ 117 ∷ 209 ∷ 153 ∷ 142
      ∷ 124 ∷ 171 ∷ 198 ∷ 151 ∷ 199 ∷ 111 ∷ 238 ∷ 160 ∷ 137 ∷ 246 ∷ 202 ∷ 83 ∷ 113 ∷ 162 ∷ 128 ∷ 62
      ∷ 110 ∷ 173 ∷ 164 ∷ 204 ∷ 55 ∷ 114 ∷ 80 ∷ 163 ∷ 91 ∷ 171 ∷ 252 ∷ 159 ∷ 21 ∷ 113 ∷ 163 ∷ 26
      ∷ 192 ∷ 121 ∷ 27 ∷ 81 ∷ 162 ∷ 123 ∷ 70 ∷ 157 ∷ 184 ∷ 232 ∷ 13 ∷ 73 ∷ 15 ∷ 193 ∷ 19 ∷ 128 ∷ 158
      ∷ 4 ∷ 226 ∷ 181 ∷ 154 ∷ 133 ∷ 205 ∷ 105 ∷ 42 ∷ 204 ∷ 64 ∷ 139 ∷ 152 ∷ 97 ∷ 198 ∷ 33 ∷ 139
      ∷ 212 ∷ 181 ∷ 237 ∷ 4 ∷ 146 ∷ 132 ∷ 104 ∷ 22 ∷ 9 ∷ 24 ∷ 242 ∷ 78 ∷ 71 ∷ 163 ∷ 165 ∷ 35 ∷ 105
      ∷ 133 ∷ 113 ∷ 213 ∷ 62 ∷ 39 ∷ 86 ∷ 245 ∷ 23 ∷ 18 ∷ 217 ∷ 62 ∷ 121 ∷ 182 ∷ 108 ∷ 73 ∷ 38 ∷ 99
      ∷ 183 ∷ 205 ∷ 85 ∷ 45 ∷ 121 ∷ 216 ∷ 12 ∷ []
unfolding shake256 keccak_f1600
shake256_of_ones = refl

absorb-append_example :
    (absorb (new_sponge 168) (ones 32 ++ (2 ∷ 1 ∷ []))
      ≡ absorb (absorb (new_sponge 168) (ones 32)) (2 ∷ 1 ∷ []))
    × HasRoom (absorb (new_sponge 168) (ones 32 ++ (2 ∷ 1 ∷ [])))
absorb-append_example = absorb-append (new_sponge 168) (ones 32) (2 ∷ 1 ∷ []) (omega arith)
