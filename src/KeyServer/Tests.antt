-- ===== src/KeyServer/Tests.antt =====
-- Examples for the keys: a key pair whose document is fetched, and a token that is verified.
use Prim.Native.Char.{code}
use skill_bridge_platform.Base.{
  ℕ, zero, suc, ◌+◌, leb, inl, Result-cases, String, Bool, true, List, [], ◌∷◌, map, Option, none,
  some, ◌≡◌, ◌≢◌, refl, ◌==◌, if◌then◌else◌, inr, Result, ok, err, plain, arith, str_dec,
}
use skill_bridge_platform.Auth.Model.{Claims, role_user}
use skill_bridge_platform.KeyClient.{KeyInfo, KeyCache, key_at, get_key}
use skill_bridge_platform.KeyServer.{
  KeyPair, KeyFunc, TokenHeader, doc_key, jwks_doc, big_endian_bytes, bytes_loop, kid_text,
  key_func, verify,
}
use skill_bridge_platform.KeyServer.Published.{published_then_get_key}
use skill_bridge_platform.KeyServer.Trust.{IsParser, verify_ok}

bytes_of_65537 : big_endian_bytes 65537 ≡ 1 ∷ 0 ∷ 1 ∷ []
unfolding big_endian_bytes bytes_loop
bytes_of_65537 = refl

-- A stand-in for base64: each number in unary, with a point after it.
abbrev in_unary : ℕ → String → String
in_unary zero rest = String.◌∷◌ "." rest
in_unary (suc n) rest = String.◌∷◌ "x" (in_unary n rest)

abbrev encode : List ℕ → String
encode [] = String.[]
encode (b ∷ bs) = in_unary b (encode bs)

abbrev read_unary : ℕ → String → List ℕ
read_unary acc String.[] = []
read_unary acc (String.◌∷◌ c s) =
    if leb (code c) 46 then acc ∷ read_unary 0 s else read_unary (suc acc) s

abbrev decode : String → Option (List ℕ)
decode s = some (read_unary 0 s)

read-in :
    (b acc : ℕ) (rest : String) → read_unary acc (in_unary b rest) ≡ (acc + b) ∷ read_unary 0 rest
read-in zero acc rest = ground arith
read-in (suc b) acc rest = ground (arith, read-in b (suc acc) rest)

decodes : (bs : List ℕ) → decode (encode bs) ≡ some bs
decodes [] = refl
decodes (b ∷ bs) = ground (arith, read-in b 0 (encode bs), decodes bs)

abbrev pair : KeyPair
pair = record { private = record { n = 3233; e = 65537 }; kid = "k1" }

abbrev empty_cache : KeyCache
empty_cache = record { keys = []; fetched_at = 0 }

nothing_known : key_at "k1" empty_cache.keys ≡ none
unfolding key_at
nothing_known = refl

published_then_get_key_example :
    (get_key decode 300 1000
      (ok (record { status_code = 200; body = some (map doc_key (jwks_doc encode pair)) }))
      "k1"
      empty_cache).0
    ≡ ok (record { n = 3233; e = 65537 })
published_then_get_key_example =
    published_then_get_key encode decode decodes pair 300 1000 empty_cache (omega arith)
      (inr nothing_known)

abbrev claims : Claims
claims = record {
  email = "a@b.c";
  role = role_user;
  subject = "ann";
  issuer = "i";
  issued_at = 0;
  expires_at = 9;
}

-- A library that knows one token, whose header names k1.
abbrev header : String → TokenHeader
header token = record { is_rsa = true; kid = some "k1" }

abbrev SignedBy : KeyInfo → String → Type 0
SignedBy key token = token ≡ "good"

abbrev parse : KeyFunc → String → KeyCache → Result (Claims × Bool) × KeyCache
parse f token c =
    let (key, c') = f (header token) c in
    elim key [
      | err e ↦ (err e, c')
      | ok k ↦ if token == "good" then (ok (claims, true), c') else (err (plain "bad"), c')
    ]

abbrev get_known : String → KeyCache → Result KeyInfo × KeyCache
get_known kid c = (ok (record { n = 3233; e = 65537 }), c)

parse-IsParser : IsParser parse header SignedBy
parse-IsParser f token c read valid h = elim (Result-cases (f (header token) c).0) [
  | inr (e, failed) ↦ absurd (ground (arith, failed, h))
  | inl (key, given) ↦ elim (str_dec token "good") [
    | yes good ↦ (key, given, good)
    | no bad ↦ absurd (ground (arith, given, bad, h))
  ]
]

verified : (verify parse get_known "good" empty_cache).0 ≡ ok claims
unfolding verify key_func str_dec
verified = refl

verify_ok_example :
    (key : KeyInfo) × ((header "good").is_rsa ≡ true)
    × (kid_text (header "good").kid ≢ "")
    × ((get_known "k1" empty_cache).0 ≡ ok key)
    × SignedBy key "good"
verify_ok_example =
    verify_ok get_known parse header SignedBy "good" empty_cache claims parse-IsParser verified
