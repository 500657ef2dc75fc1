-- ===== src/KeyClient/Tests.antt =====
-- Examples for the cache of keys.
use skill_bridge_platform.Base.{
  ℕ, String, true, List, [], ◌∷◌, Option, none, some, ◌==◌, ◌≡◌, refl, ok, err, plain, inl, str_dec,
  if◌then◌else◌,
}
use skill_bridge_platform.KeyClient.{
  KeyInfo, DocKey, KeyCache, key_at, put_key, decode_key, doc_keys, refresh, is_stale, or_unknown,
  get_key, set_bytes, exponent,
}
use skill_bridge_platform.KeyClient.Lookup.{last_key, get_key_rotates}

-- A decoding that knows one text only.
abbrev decode : String → Option (List ℕ)
decode t = if t == "AQAB" then some (1 ∷ 0 ∷ 1 ∷ []) else none

abbrev old_key : KeyInfo
old_key = record { n = 7; e = 3 }

abbrev cache : KeyCache
cache = record { keys = ("k1", old_key) ∷ []; fetched_at = 0 }

abbrev doc : List DocKey
doc =
    record { kid = "k2"; n = "AQAB"; e = "AQAB" } ∷ record { kid = "k3"; n = "?"; e = "AQAB" } ∷ []

program : Unit {0}
unfolding get_key is_stale refresh doc_keys decode_key key_at put_key set_bytes exponent str_dec
program = tt

known : key_at "k1" cache.keys ≡ some old_key
unfolding program
known = refl

unreachable : refresh decode 1000 (err (plain "down")) cache ≡ (err (plain "down"), cache)
unfolding program
unreachable = refl

stale : is_stale 300 1000 cache ≡ true
unfolding program
stale = refl

-- The old key is gone.
get_key_rotates_example :
    get_key decode 300 1000 (ok (record { status_code = 200; body = some doc })) "k1" cache ≡ (
      or_unknown (last_key decode "k1" none doc),
      record { keys = doc_keys decode [] doc; fetched_at = 1000 },
    )
get_key_rotates_example = get_key_rotates decode 300 1000 "k1" cache doc (inl stale)

new_key :
    (get_key decode 300 1000 (ok (record { status_code = 200; body = some doc })) "k2" cache).0
    ≡ ok (record { n = 65537; e = 65537 })
unfolding program
new_key = refl
