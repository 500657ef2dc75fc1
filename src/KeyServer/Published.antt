-- ===== src/KeyServer/Published.antt =====
-- A published key comes back: backend/internal/platform/jwks/server.go with client.go.
use skill_bridge_platform.Base.{
  ℕ, zero, suc, ◌/◌, ◌%◌, ◌≤◌, ◌<◌, String, true, List, [], ◌∷◌, map, Option, none, some, ◌≡◌, ◌⊎◌,
  refl, ltb, ok, arith, Bool-cases, inl, inr,
}
use skill_bridge_platform.KeyClient.{
  DocKey, KeyCache, set_bytes, exponent, decode_key, key_at, is_stale, get_key,
}
use skill_bridge_platform.KeyClient.Lookup.{last_key, get_key_rotates}
use skill_bridge_platform.KeyServer.{
  KeyPair, doc_key, bytes_loop, big_endian_bytes, int_bytes, jwks_doc,
}

loop-set_bytes :
    (fuel e : ℕ) (b : List ℕ) → e ≤ fuel → set_bytes 0 (bytes_loop fuel e b) ≡ set_bytes e b
unfolding set_bytes bytes_loop
loop-set_bytes zero e b h = let e0 : e ≡ 0 = omega (arith, h) in rw e0 refl
loop-set_bytes (suc fuel) e b h = elim (Bool-cases (ltb 0 e)) [
  | inl more ↦ ground (arith, more, loop-set_bytes fuel (e / 256) (e % 256 ∷ b))
  | inr done ↦ ground (arith, done)
]

loop-exponent :
    (fuel e : ℕ) (b : List ℕ)
    → e ≤ fuel
    → e < 18446744073709551616
    → exponent 0 (bytes_loop fuel e b) ≡ exponent e b
unfolding exponent bytes_loop
loop-exponent zero e b h w = let e0 : e ≡ 0 = omega (arith, h) in rw e0 refl
loop-exponent (suc fuel) e b h w = elim (Bool-cases (ltb 0 e)) [
  | inl more ↦ ground (arith, more, loop-exponent fuel (e / 256) (e % 256 ∷ b))
  | inr done ↦ ground (arith, done)
]

int_bytes-back : (n : ℕ) → set_bytes 0 (int_bytes n) ≡ n
unfolding int_bytes set_bytes
int_bytes-back n = loop-set_bytes n n [] (omega arith)

big_endian_bytes-back : (e : ℕ) → e < 18446744073709551616 → exponent 0 (big_endian_bytes e) ≡ e
unfolding big_endian_bytes exponent
big_endian_bytes-back zero h = refl
big_endian_bytes-back (suc e) h = loop-exponent (suc e) (suc e) [] (omega arith) h

module _ (encode : List ℕ → String) (decode : String → Option (List ℕ))
    (decodes : (bs : List ℕ) → decode (encode bs) ≡ some bs) where
  decode_key-published :
      (kp : KeyPair)
      → kp.private.e < 18446744073709551616
      → (doc : List DocKey) × (map doc_key (jwks_doc encode kp) ≡ doc)
        × (last_key decode kp.kid none doc ≡ some (record { n = kp.private.n; e = kp.private.e }))
  unfolding jwks_doc decode_key
  decode_key-published kp small = (
    map doc_key (jwks_doc encode kp),
    refl,
    ground (
      arith,
      decodes (int_bytes kp.private.n),
      decodes (big_endian_bytes kp.private.e),
      int_bytes-back kp.private.n,
      big_endian_bytes-back kp.private.e small,
    ),
  )

  -- The key that a verifier gets for the id of a key pair, from the document that the pair's owner
  -- serves, is the public half of the pair, whenever the verifier fetches the document: when its
  -- cache is stale or has no such id. The exponent fits in 64 bits, and base64 decodes what it has
  -- encoded.
  pub published_then_get_key :
      (kp : KeyPair) (interval now : ℕ) (c : KeyCache)
      → kp.private.e < 18446744073709551616
      → (is_stale interval now c ≡ true) ⊎ (key_at kp.kid c.keys ≡ none)
      → (get_key decode interval now
          (ok (record { status_code = 200; body = some (map doc_key (jwks_doc encode kp)) }))
          kp.kid
          c).0
        ≡ ok (record { n = kp.private.n; e = kp.private.e })
  published_then_get_key kp interval now c small due =
      let (doc, e, found) = decode_key-published kp small in
      ground (
        arith,
        get_key_rotates decode interval now kp.kid c (map doc_key (jwks_doc encode kp)) due,
        e,
        found,
      )
