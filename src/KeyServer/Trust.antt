-- ===== src/KeyServer/Trust.antt =====
-- What a verified token and a loaded key have been checked for:
-- backend/internal/platform/jwks/token.go and keys.go.
use skill_bridge_platform.Base.{
  String, Bool, true, ◌≡◌, ◌≢◌, Result, ok, List, ℕ, arith, Result-cases, Bool-cases, inl, inr,
  str_dec,
}
use skill_bridge_platform.Auth.Model.{Claims}
use skill_bridge_platform.KeyClient.{KeyInfo, KeyCache}
use skill_bridge_platform.KeyServer.{
  KeyFunc, TokenHeader, PrivateKey, KeyParsers, kid_text, key_func, verify, load_or_generate,
}

-- What `jwt.ParseWithClaims` answers with success only for: a token whose header the key function
-- takes, with a key under which the token is signed.
abbrev pub IsParser :
    (KeyFunc → String → KeyCache → Result (Claims × Bool) × KeyCache)
    → (String → TokenHeader)
    → (KeyInfo → String → Type 0)
    → Type 0
IsParser parse header SignedBy =
    (f : KeyFunc) (token : String) (c : KeyCache) (claims : Claims) (valid : Bool)
    → (parse f token c).0 ≡ ok (claims, valid)
    → (key : KeyInfo) × ((f (header token) c).0 ≡ ok key) × SignedBy key token

module _ (get_key : String → KeyCache → Result KeyInfo × KeyCache) where
  key_func_ok :
      (header : TokenHeader) (c : KeyCache) (key : KeyInfo)
      → (key_func get_key header c).0 ≡ ok key
      → (header.is_rsa ≡ true)
        × (kid_text header.kid ≢ "")
        × ((get_key (kid_text header.kid) c).0 ≡ ok key)
  unfolding key_func
  key_func_ok header c key h = elim (Bool-cases header.is_rsa) [
    | inr other ↦ absurd (ground (arith, other, h))
    | inl rsa ↦ elim (str_dec (kid_text header.kid) "") [
      | yes missing ↦ absurd (ground (arith, rsa, missing, h))
      | no named ↦ (rsa, named, ground (arith, rsa, named, h))
    ]
  ]

  -- A token is verified only if its header has a method of RSA and a key id, and the token is signed
  -- by the key that the client has for that id.
  pub verify_ok :
      (parse : KeyFunc → String → KeyCache → Result (Claims × Bool) × KeyCache)
      (header : String → TokenHeader) (SignedBy : KeyInfo → String → Type 0) (token : String)
      (c : KeyCache) (claims : Claims)
      → IsParser parse header SignedBy
      → (verify parse get_key token c).0 ≡ ok claims
      → (key : KeyInfo) × ((header token).is_rsa ≡ true)
        × (kid_text (header token).kid ≢ "")
        × ((get_key (kid_text (header token).kid) c).0 ≡ ok key)
        × SignedBy key token
  unfolding verify
  verify_ok parse header SignedBy token c claims parses h =
      elim (Result-cases (parse (key_func get_key) token c).0) [
        | inr (e, failed) ↦ absurd (ground (arith, failed, h))
        | inl ((read, valid), parsed) ↦
            let (key, given, signed) = parses (key_func get_key) token c read valid parsed in
            let (rsa, named, got) = key_func_ok (header token) c key given in
            (key, rsa, named, got, signed)
      ]

module _ {B : Type 0} (parsers : KeyParsers B) (encode : List ℕ → String)
    (sum256 : List ℕ → List ℕ) where
  -- When the environment has a private key, no key is generated in its place, also when it cannot be
  -- read: the result does not depend on what would be generated.
  pub load_or_generate_configured :
      (getenv : String → String) (one other : Result PrivateKey)
      → getenv "JWT_PRIVATE_KEY_PEM" ≢ ""
      → load_or_generate parsers encode sum256 one getenv
        ≡ load_or_generate parsers encode sum256 other getenv
  unfolding load_or_generate
  load_or_generate_configured getenv one other set = ground (arith, set)
