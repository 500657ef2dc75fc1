-- ===== src/KeyClient/Lookup.antt =====
-- Which key `GetKey` answers, by the age of the cache and by what the endpoint gives.
use skill_bridge_platform.Base.{
  ℕ, String, true, List, [], ◌∷◌, Option, none, some, ◌==◌, ◌≡◌, ◌⊎◌, refl, if◌then◌else◌, Result,
  ok, err, GoError, arith, Option-cases, inl, inr,
}
use skill_bridge_platform.KeyClient.{
  KeyInfo, DocKey, KeyCache, Response, key_at, put_key, decode_key, doc_keys, refresh, is_stale,
  or_unknown, get_key,
}

-- The key of the last entry with this id that decodes, or the one given.
abbrev pub last_key :
    (String → Option (List ℕ)) → String → Option KeyInfo → List DocKey → Option KeyInfo
last_key decode kid found [] = found
last_key decode kid found (k ∷ ks) =
    last_key decode kid
      (if k.kid == kid
        then elim (decode_key decode k) [ none ↦ found | some info ↦ some info ]
        else found)
      ks

key-put :
    (kid j : String) (info : KeyInfo) (m : List (String × KeyInfo))
    → key_at kid (put_key j info m) ≡ (if j == kid then some info else key_at kid m)
unfolding key_at put_key
key-put kid j info [] = refl
key-put kid j info ((i, old) ∷ m) = ground (arith, key-put kid j info m)

-- The map that a document makes has, under each id, the key of the last entry with that id that
-- decodes.
pub key-doc_keys :
    (decode : String → Option (List ℕ)) (kid : String) (out : List (String × KeyInfo))
    (doc : List DocKey)
    → key_at kid (doc_keys decode out doc) ≡ last_key decode kid (key_at kid out) doc
unfolding doc_keys
key-doc_keys decode kid out [] = refl
key-doc_keys decode kid out (k ∷ ks) = elim (Option-cases (decode_key decode k)) [
  | inl bad ↦ ground (arith, bad, key-doc_keys decode kid out ks)
  | inr (info, good) ↦
      ground (
        arith,
        good,
        key-doc_keys decode kid (put_key k.kid info out) ks,
        key-put kid k.kid info out,
      )
]

module _ (decode : String → Option (List ℕ)) (interval now : ℕ) (kid : String) (c : KeyCache) where
  -- A cached key is answered, fresh or stale, while the key set cannot be fetched; the cache stays
  -- as it was.
  pub get_key_degrades :
      (fetched : Result Response) (info : KeyInfo) (e : GoError)
      → key_at kid c.keys ≡ some info
      → refresh decode now fetched c ≡ (err e, c)
      → get_key decode interval now fetched kid c ≡ (ok info, c)
  unfolding get_key
  get_key_degrades fetched info e known failed = ground (arith, known, failed)

  fetched_ok :
      (doc : List DocKey)
      → refresh decode now (ok (record { status_code = 200; body = some doc })) c
        ≡ (ok tt, record { keys = doc_keys decode [] doc; fetched_at = now })
  unfolding refresh
  fetched_ok doc = refl

  none_at : key_at kid [] ≡ none
  unfolding key_at
  none_at = refl

  -- If the cache is stale or does not have the key, and the key set is fetched, the answer is the
  -- last key with the id in the new set that decodes, or an error if there is none, even if the old
  -- cache had one; the cache is then the new set.
  pub get_key_rotates :
      (doc : List DocKey)
      → (is_stale interval now c ≡ true) ⊎ (key_at kid c.keys ≡ none)
      → get_key decode interval now (ok (record { status_code = 200; body = some doc })) kid c ≡ (
        or_unknown (last_key decode kid none doc),
        record { keys = doc_keys decode [] doc; fetched_at = now },
      )
  unfolding get_key
  get_key_rotates doc due =
      let new = fetched_ok doc in
      let found = key-doc_keys decode kid [] doc in
      elim (Option-cases (key_at kid c.keys)) [
        | inl unknown ↦ ground (arith, unknown, new, found, none_at)
        | inr (info, known) ↦ ground (arith, known, due, new, found, none_at)
      ]
