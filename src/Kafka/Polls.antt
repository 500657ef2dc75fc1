-- ===== src/Kafka/Polls.antt =====
-- The loop `Run` of backend/internal/platform/kafka/consumer.go.
use skill_bridge_platform.Base.{
  Bool, false, List, [], ◌∷◌, ◌++◌, if◌then◌else◌, ◌≡◌, refl, Action, arith, ap, Bool-cases, inl,
  inr, ◌||◌, sym,
}
use skill_bridge_platform.Kafka.{KafkaMessage, Poll, each_record, run_consumer}

module _ {J : Type 0} where
  -- What is fetched in the turns before the context has ended.
  abbrev pub fetched : List (Poll J) → List (KafkaMessage J)
  fetched [] = []
  fetched (p ∷ ps) = if p.done_before || p.done_after then [] else p.records ++ fetched ps

  -- Does the context end in one of the turns?
  abbrev pub is_ended : List (Poll J) → Bool
  is_ended [] = false
  is_ended (p ∷ ps) = (p.done_before || p.done_after) || is_ended ps

module _ {J S : Type 0} (handler : KafkaMessage J → Action S (Unit {0})) where
  pub each_record-append :
      (xs ys : List (KafkaMessage J)) (s : S)
      → each_record handler (xs ++ ys) s ≡ each_record handler ys (each_record handler xs s)
  unfolding each_record
  each_record-append [] ys s = refl
  each_record-append (x ∷ xs) ys s = each_record-append xs ys (handler x s).1

  none_left : (s : S) → each_record handler [] s ≡ s
  unfolding each_record
  none_left s = refl

  -- The consumer returns exactly when the context ends in one of the turns, and by then it has given
  -- each record of the turns before to the handler, once and in order, whatever the handler answered.
  pub run_consumer-each_record :
      (ps : List (Poll J)) (s : S)
      → run_consumer handler ps s ≡ (is_ended ps, each_record handler (fetched ps) s)
  unfolding run_consumer
  run_consumer-each_record [] s = ap (λ (t : S). (false, t)) (sym (none_left s))
  run_consumer-each_record (p ∷ ps) s = elim (Bool-cases p.done_before) [
    | inl before ↦ ground (arith, before, none_left s)
    | inr open_before ↦ elim (Bool-cases p.done_after) [
      | inl after ↦ ground (arith, open_before, after, none_left s)
      | inr open_after ↦ ground (
        arith,
        open_before,
        open_after,
        run_consumer-each_record ps (each_record handler p.records s),
        each_record-append p.records (fetched ps) s,
      )
    ]
  ]
