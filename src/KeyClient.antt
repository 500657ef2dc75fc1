-- ===== src/KeyClient.antt =====
-- The cache of public keys with which tokens are verified: backend/internal/platform/jwks/client.go.
-- What the HTTP request for the key set would give is an argument; so is the base64 decoding.
pub mod Lookup
mod Tests
use skill_bridge_platform.Base.{
  ℕ, ◌+◌, ◌-◌, ◌*◌, ◌%◌, String, Bool, true, false, List, [], ◌∷◌, Option, none, some, ◌==◌, ◌<>◌,
  ◌||◌, ltb, leb, ◌&&◌, if◌then◌else◌, Result, ok, err, GoError, plain,
}

-- The struct `rsaPublicKeyInfo`. `e` is an int, here its 64 bits.
pub record KeyInfo : Type 0 where
  pub n : ℕ
  pub e : ℕ

-- A key of the document, with base64 numbers.
pub record DocKey : Type 0 where
  pub kid : String
  pub n : String
  pub e : String

-- The fields of `Client` that change.
pub record KeyCache : Type 0 where
  pub keys : List (String × KeyInfo)
  pub fetched_at : ℕ

-- A response: its status, and its body if that decodes.
pub record Response : Type 0 where
  pub status_code : ℕ
  pub body : Option (List DocKey)

-- `big.Int.SetBytes`: the number of its big-endian bytes
unfoldable pub set_bytes : ℕ → List ℕ → ℕ
set_bytes acc [] = acc
set_bytes acc (b ∷ bs) = set_bytes (acc * 256 + b) bs

-- The loop `e = e<<8 | int(b)`.
unfoldable pub exponent : ℕ → List ℕ → ℕ
exponent acc [] = acc
exponent acc (b ∷ bs) = exponent ((acc * 256 + b) % 18446744073709551616) bs

-- `keys[kid] = info`
unfoldable pub put_key : String → KeyInfo → List (String × KeyInfo) → List (String × KeyInfo)
put_key kid info [] = (kid, info) ∷ []
put_key kid info ((j, i) ∷ m) =
    let rest = put_key kid info m in if j == kid then (kid, info) ∷ m else (j, i) ∷ rest

unfoldable pub key_at : String → List (String × KeyInfo) → Option KeyInfo
key_at kid [] = none
key_at kid ((j, i) ∷ m) = let rest = key_at kid m in if j == kid then some i else rest

-- The key of one entry, if both its numbers decode.
unfoldable pub decode_key : (String → Option (List ℕ)) → DocKey → Option KeyInfo
unfolding set_bytes exponent
decode_key decode k = elim (decode k.n) [
  | none ↦ none
  | some n ↦ elim (decode k.e) [
    | none ↦ none
    | some e ↦ some (record { n = set_bytes 0 n; e = exponent 0 e })
  ]
]

-- The loop over the document; an entry that does not decode is skipped.
unfoldable pub doc_keys :
    (String → Option (List ℕ)) → List (String × KeyInfo) → List DocKey → List (String × KeyInfo)
unfolding put_key decode_key
doc_keys decode out [] = out
doc_keys decode out (k ∷ ks) =
    doc_keys decode (elim (decode_key decode k) [ none ↦ out | some info ↦ put_key k.kid info out ])
      ks

-- What follows a response.
abbrev pub read_response :
    (String → Option (List ℕ)) → ℕ → Response → KeyCache → Result (Unit {0}) × KeyCache
read_response decode now resp c =
    if leb resp.status_code 200 && leb 200 resp.status_code
    then elim resp.body [
      | none ↦ (err (plain "jwks client: decode JWKS"), c)
      | some doc ↦ (ok tt, record { keys = doc_keys decode [] doc; fetched_at = now })
    ]
    else (err (plain "jwks client: unexpected status"), c)

-- `Refresh`, at the time `now`
unfoldable pub refresh :
    (String → Option (List ℕ)) → ℕ → Result Response → KeyCache → Result (Unit {0}) × KeyCache
refresh decode now fetched c = elim fetched [
  | err e ↦ (err e, c)
  | ok resp ↦ read_response decode now resp c
]

abbrev pub is_empty : List (String × KeyInfo) → Bool
is_empty [] = true
is_empty (k ∷ ks) = false

unfoldable pub is_stale : (interval now : ℕ) → KeyCache → Bool
is_stale interval now c = ltb interval (now - c.fetched_at) || is_empty c.keys

abbrev pub or_unknown : Option KeyInfo → Result KeyInfo
or_unknown none = err (plain "jwks client: no key found")
or_unknown (some info) = ok info

-- After a refresh: a failed one falls back on the key that was there.
abbrev pub after_refresh :
    String → Option KeyInfo → Result (Unit {0}) × KeyCache → Result KeyInfo × KeyCache
after_refresh kid (some info) (err e, c) = (ok info, c)
after_refresh kid none (err e, c) = (err e, c)
after_refresh kid known (ok _, c) = (or_unknown (key_at kid c.keys), c)

-- `GetKey`: `fetched` is what a request made now would give.
unfoldable pub get_key :
    (String → Option (List ℕ))
    → (interval now : ℕ) → Result Response
    → String
    → KeyCache
    → Result KeyInfo × KeyCache
unfolding is_stale refresh
get_key decode interval now fetched kid c =
    let known = key_at kid c.keys in
    let refreshed = after_refresh kid known (refresh decode now fetched c) in
    elim known [
      | none ↦ refreshed
      | some info ↦ if is_stale interval now c then refreshed else (ok info, c)
    ]
