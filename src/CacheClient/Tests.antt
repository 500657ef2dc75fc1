-- ===== src/CacheClient/Tests.antt =====
-- An example for the client, on a Redis in memory.
use skill_bridge_platform.Base.{
  String, List, [], ◌∷◌, ◌≡◌, Option, none, some, ok, err, Result, GoError, refl, true, contains,
  str_dec, arith, Option-cases, inl, inr,
}
use skill_bridge_platform.Fakes.{find, drop_keys, find-drop, find-set}
use skill_bridge_platform.CacheClient.{Redis, get, set, del}
use skill_bridge_platform.CacheClient.Implements.{IsRedis, set_get_del}

abbrev Texts : Type 0
Texts = List (String × String)

-- `redis.Nil` for a missing key.
abbrev answer : Option String → Result String
answer none = err (GoError.plain "redis: nil")
answer (some v) = ok v

answer_ok : (o : Option String) (v : String) → answer o ≡ ok v → o ≡ some v
answer_ok none v h = absurd (cc)
answer_ok (some u) v h = cc

abbrev texts_redis : Redis Texts
texts_redis = record {
  get = λ k r. (answer (find k r), r);
  set = λ k v ttl r. (ok tt, (k, v) ∷ r);
  del = λ ks r. (ok tt, drop_keys ks r);
  incr = λ k r. (err (GoError.plain "no number"), r);
  expire = λ k ttl r. (ok tt, r);
  publish = λ channel message r. (ok tt, r);
  xadd = λ k n field value r. (ok tt, r);
  xrevrange = λ k n r. (ok [], r);
}

find-here : (k u : String) (r : Texts) → find k ((k, u) ∷ r) ≡ some u
unfolding find
find-here k u r = ground arith

dropped :
    (ks : List String) (r : Texts) (k : String)
    → contains k ks ≡ true
    → find k (drop_keys ks r) ≡ none
dropped ks r k there = elim (Option-cases (find k (drop_keys ks r))) [
  | inl gone ↦ gone
  | inr (v, found) ↦ absurd (ground (arith, there, (find-drop ks k r v found).0))
]

texts_redis-IsRedis : IsRedis texts_redis
texts_redis-IsRedis = record {
  value = λ r k. find k r;
  get_ok = λ k r v h. answer_ok _ v h;
  get_keeps = λ k r j v h. h;
  set_keeps = λ k u ttl r j v h. find-set k u r j v h;
  del_keeps = λ ks r j v h. (find-drop ks j r v h).1;
  set_ok = λ k u ttl r h. find-here k u r;
  del_ok = λ ks r k h there. dropped ks r k there;
}

texts : Unit {0}
unfolding get set del find drop_keys str_dec
texts = tt

set_get_del_example :
    let after_set = set (some texts_redis) "k" "v" 60 [] in
    let (found, after_get) = get (some texts_redis) "k" after_set in
    (found ≡ some "v")
    × ((get (some texts_redis) "k" (del (some texts_redis) ("j" ∷ "k" ∷ []) after_get)).0 ≡ none)
unfolding texts
set_get_del_example =
    set_get_del texts_redis texts_redis-IsRedis "k" "v" "v" 60 ("j" ∷ "k" ∷ []) [] refl refl refl
      refl
