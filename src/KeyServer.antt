-- ===== src/KeyServer.antt =====
-- The keys of auth-service and their publication: backend/internal/platform/jwks/keys.go, server.go
-- and the verifier of token.go. A private key is its public numbers and what signs with it. The
-- parsers of keys, SHA-256, base64 and the JWT library are parameters.
pub mod Published
pub mod Trust
mod Tests
use skill_bridge_platform.Base.{
  ℕ, zero, suc, ◌/◌, ◌%◌, String, Bool, true, false, List, [], ◌∷◌, map, Option, none, some, ◌==◌,
  ltb, if◌then◌else◌, Result, ok, err, GoError, plain,
}
use skill_bridge_platform.Auth.Model.{Claims}
use skill_bridge_platform.KeyClient.{KeyInfo, DocKey, KeyCache}

pub record PrivateKey : Type 0 where
  pub n : ℕ
  pub e : ℕ

pub record KeyPair : Type 0 where
  pub private : PrivateKey
  pub kid : String

-- The loop `for e > 0`, on fuel: each round takes the lowest byte.
unfoldable pub bytes_loop : ℕ → ℕ → List ℕ → List ℕ
bytes_loop zero e b = b
bytes_loop (suc fuel) e b = elim (ltb 0 e) [
  | true ↦ bytes_loop fuel (e / 256) (e % 256 ∷ b)
  | false ↦ b
]

unfoldable pub big_endian_bytes : ℕ → List ℕ
big_endian_bytes zero = 0 ∷ []
big_endian_bytes (suc e) = bytes_loop (suc e) (suc e) []

-- `big.Int.Bytes`
unfoldable pub int_bytes : ℕ → List ℕ
int_bytes n = bytes_loop n n []

-- One entry of the document, and what the client's decoder takes of it.
pub record Jwk : Type 0 where
  pub kty : String
  pub use_for : String
  pub kid : String
  pub alg : String
  pub n : String
  pub e : String

abbrev pub doc_key : Jwk → DocKey
doc_key k = record { kid = k.kid; n = k.n; e = k.e }

-- `Handler`: the document that it serves. `encode` is base64.RawURLEncoding.
unfoldable pub jwks_doc : (List ℕ → String) → KeyPair → List Jwk
jwks_doc encode kp =
    record {
      kty = "RSA";
      use_for = "sig";
      kid = kp.kid;
      alg = "RS256";
      n = encode (int_bytes kp.private.n);
      e = encode (big_endian_bytes kp.private.e);
    }
    ∷ []

-- `sum[:8]`
abbrev pub first_eight : ℕ → List ℕ → List ℕ
first_eight zero bs = []
first_eight (suc k) [] = []
first_eight (suc k) (b ∷ bs) = b ∷ first_eight k bs

unfoldable pub kid_for : (List ℕ → String) → (List ℕ → List ℕ) → PrivateKey → String
kid_for encode sum256 key = encode (first_eight 8 (sum256 (int_bytes key.n)))

-- `pem.Decode`, and the two parsers: of PKCS #8, `none` is a key that is not RSA.
pub record KeyParsers (B : Type 0) : Type 0 where
  pub pem_block : String → Option B
  pub parse_pkcs1 : B → Result PrivateKey
  pub parse_pkcs8 : B → Result (Option PrivateKey)

module _ {B : Type 0} (parsers : KeyParsers B) (encode : List ℕ → String)
    (sum256 : List ℕ → List ℕ) where
  -- `GenerateKeyPair`, of what `rsa.GenerateKey` gives.
  unfoldable pub generate_key_pair : Result PrivateKey → Result KeyPair
  generate_key_pair (err e) = err (plain "jwks: generate key")
  generate_key_pair (ok priv) = ok (record { private = priv; kid = kid_for encode sum256 priv })

  abbrev pub parse_key : B → Result PrivateKey
  parse_key block = elim (parsers.parse_pkcs1 block) [
    | ok key ↦ ok key
    | err _ ↦ elim (parsers.parse_pkcs8 block) [
      | err _ ↦ err (plain "jwks: failed to parse JWT_PRIVATE_KEY_PEM")
      | ok key ↦ elim key [
        | none ↦ err (plain "jwks: JWT_PRIVATE_KEY_PEM is not an RSA key")
        | some rsa ↦ ok rsa
      ]
    ]
  ]

  -- The environment's `JWT_KID`, or the one derived from the key.
  abbrev pub with_kid : String → PrivateKey → KeyPair
  with_kid kid priv = record {
    private = priv;
    kid = if kid == "" then kid_for encode sum256 priv else kid;
  }

  unfoldable pub load_or_generate : Result PrivateKey → (String → String) → Result KeyPair
  load_or_generate generated getenv =
      if getenv "JWT_PRIVATE_KEY_PEM" == ""
      then generate_key_pair generated
      else elim (parsers.pem_block (getenv "JWT_PRIVATE_KEY_PEM")) [
        | none ↦ err (plain "jwks: JWT_PRIVATE_KEY_PEM is set but not valid PEM")
        | some block ↦ elim (parse_key block) [
          | err e ↦ err e
          | ok priv ↦ ok (with_kid (getenv "JWT_KID") priv)
        ]
      ]

-- What the JWT library shows its key function: whether the method is one of RSA, and the `kid`.
pub record TokenHeader : Type 0 where
  pub is_rsa : Bool
  pub kid : Option String

abbrev pub KeyFunc : Type 0
KeyFunc = TokenHeader → KeyCache → Result KeyInfo × KeyCache

abbrev pub kid_text : Option String → String
kid_text none = ""
kid_text (some kid) = kid

-- The function literal in `Verify`; `get_key` is that of the client.
unfoldable pub key_func : (String → KeyCache → Result KeyInfo × KeyCache) → KeyFunc
key_func get_key header c =
    let kid = kid_text header.kid in
    let found = get_key kid c in
    elim header.is_rsa [
      | false ↦ (err (plain "jwks: unexpected signing method"), c)
      | true ↦ if kid == "" then (err (plain "jwks: token is missing a kid header"), c) else found
    ]

-- `Verify`; `parse` is `jwt.ParseWithClaims`, with the token's claims and `token.Valid`.
unfoldable pub verify :
    (KeyFunc → String → KeyCache → Result (Claims × Bool) × KeyCache)
    → (String → KeyCache → Result KeyInfo × KeyCache)
    → String
    → KeyCache
    → Result Claims × KeyCache
verify parse get_key token c =
    let (parsed, c') = parse (key_func get_key) token c in
    elim parsed [
      | err e ↦ (err (plain "jwks: verify token"), c')
      | ok (claims, valid) ↦ elim valid [
        | true ↦ (ok claims, c')
        | false ↦ (err (plain "jwks: token failed validation"), c')
      ]
    ]
