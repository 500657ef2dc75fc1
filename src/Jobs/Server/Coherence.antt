-- ===== src/Jobs/Server/Coherence.antt =====
-- The jobs and their cached copies (backend/internal/jobs/server.go).
use text.Mathlib.TextLemmas.{append_cancel_left}
use skill_bridge_platform.Base.{String, List, [], ◌∷◌, map, ◌≡◌, inl, inr, refl, ap, some, arith}
use skill_bridge_platform.Platform.{Cache}
use skill_bridge_platform.Platform.Laws.{IsCodec, IsCache}
use skill_bridge_platform.Jobs.Model.{JobWithSkills, JobProto}
use skill_bridge_platform.Jobs.Server.Laws.{Tables, listing, job_of, AreApart}
use skill_bridge_platform.Jobs.Server.{
  Server, to_proto, to_cached_job, of_cached_job, row_to_cached, row_to_proto, jobs_all_cache_key,
  job_cache_key, jobs_cache_ttl, decode_cached_job, decode_cached_jobs,
}

cached_back : (j : JobProto) → of_cached_job (to_cached_job j) ≡ j
unfolding to_cached_job of_cached_job
cached_back j = refl

job_cache_key_inj : (a b : String) → job_cache_key a ≡ job_cache_key b → a ≡ b
unfolding job_cache_key
job_cache_key_inj a b h = append_cancel_left "jobs:" a b h

module _ {F J D C : Type 0} (s : Server F J D C) (cache : Cache J C) (laws : IsCache cache) where
  pub map-cached :
      (rows : List JobWithSkills)
      → map of_cached_job (map row_to_cached rows) ≡ map (row_to_proto s) rows
  unfolding to_proto row_to_cached of_cached_job
  map-cached [] = refl
  map-cached (r ∷ rows) = ap (◌∷◌ (row_to_proto s r)) (map-cached rows)

  -- Whatever is cached is what the tables hold.
  pub record IsCoherent (t : Tables) (c : C) : Type 0 where
    pub list_fresh :
        (raw : J) (jobs : List JobProto)
        → laws.entry c jobs_all_cache_key ≡ some raw
        → decode_cached_jobs s raw ≡ some jobs
        → jobs ≡ listing t
    pub job_fresh :
        (id : String) (raw : J) (job : JobProto)
        → laws.entry c (job_cache_key id) ≡ some raw
        → decode_cached_job s raw ≡ some job
        → job_of t id ≡ some job

  pub get-IsCoherent :
      (t : Tables) (key : String) (c : C) → IsCoherent t c → IsCoherent t (cache.get key c).1
  get-IsCoherent t key c h = record {
    list_fresh = λ raw jobs e d. h.list_fresh raw jobs (laws.get_keeps key c _ raw e) d;
    job_fresh = λ id raw job e d. h.job_fresh id raw job (laws.get_keeps key c _ raw e) d;
  }

  pub del-IsCoherent :
      (t : Tables) (keys : List String) (c : C) → IsCoherent t c → IsCoherent t (cache.del keys c)
  del-IsCoherent t keys c h = record {
    list_fresh = λ raw jobs e d. h.list_fresh raw jobs (laws.del_keeps keys c _ raw e) d;
    job_fresh = λ id raw job e d. h.job_fresh id raw job (laws.del_keeps keys c _ raw e) d;
  }

  module _ (codec : IsCodec s.job_json) (list_codec : IsCodec s.jobs_json)
      (apart : AreApart s.job_json s.jobs_json) where
    pub set_list-IsCoherent :
        (t : Tables) (rows : List JobWithSkills) (text : J) (c : C)
        → map (row_to_proto s) rows ≡ listing t
        → s.jobs_json.marshal (map row_to_cached rows) ≡ some text
        → IsCoherent t c
        → IsCoherent t (cache.set jobs_all_cache_key text jobs_cache_ttl c)
    unfolding decode_cached_jobs decode_cached_job
    set_list-IsCoherent t rows text c e encoded h = record {
      list_fresh = λ raw jobs there d.
          elim (laws.set_keeps jobs_all_cache_key text jobs_cache_ttl c jobs_all_cache_key raw
            there) [
              | inl old ↦ h.list_fresh raw jobs old d
              | inr (_, new) ↦
                  ground
                    (arith, new, e, map-cached rows, list_codec.unmarshal-marshal _ text encoded)
            ];
      job_fresh = λ id raw job there d.
          elim (laws.set_keeps jobs_all_cache_key text jobs_cache_ttl c (job_cache_key id) raw
            there) [
              | inl old ↦ h.job_fresh id raw job old d
              | inr (_, new) ↦ ground (arith, new, apart.list_is_no_job _ text encoded)
            ];
    }

    pub set_job-IsCoherent :
        (t : Tables) (id : String) (answered : JobProto) (text : J) (c : C)
        → job_of t id ≡ some answered
        → s.job_json.marshal (to_cached_job answered) ≡ some text
        → IsCoherent t c
        → IsCoherent t (cache.set (job_cache_key id) text jobs_cache_ttl c)
    unfolding decode_cached_jobs decode_cached_job
    set_job-IsCoherent t id answered text c e encoded h = record {
      list_fresh = λ raw jobs there d.
          elim (laws.set_keeps (job_cache_key id) text jobs_cache_ttl c jobs_all_cache_key raw
            there) [
              | inl old ↦ h.list_fresh raw jobs old d
              | inr (_, new) ↦ ground (arith, new, apart.job_is_no_list _ text encoded)
            ];
      job_fresh = λ id' raw job there d.
          elim (laws.set_keeps (job_cache_key id) text jobs_cache_ttl c (job_cache_key id') raw
            there) [
              | inl old ↦ h.job_fresh id' raw job old d
              | inr (same, new) ↦
                  let same_id = job_cache_key_inj id' id same in
                  ground (
                    arith,
                    new,
                    ap (job_of t) same_id,
                    e,
                    cached_back answered,
                    codec.unmarshal-marshal _ text encoded,
                  )
            ];
    }
