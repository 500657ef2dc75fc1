-- ===== src/Kafka/Projection.antt =====
-- The consumer of user.skills.updated over whole polls: `Run` of
-- backend/internal/platform/kafka/consumer.go with the handler of backend/internal/jobs/snapshot.go.
use skill_bridge_platform.Base.{
  String, Bool, List, [], ◌∷◌, Option, none, some, ◌==◌, ◌≡◌, ◌≢◌, ◌∙◌, if◌then◌else◌, ok, Action,
  refl, arith, ap, Option-cases, inl, inr, str_dec,
}
use skill_bridge_platform.Platform.{Json}
use skill_bridge_platform.Jobs.Model.{UserSkillsUpdated}
use skill_bridge_platform.Jobs.Snapshot.{SnapshotDb, handle_user_skills_updated}
use skill_bridge_platform.Jobs.Snapshot.Replace.{IsSnapshotDb, skill_in, handle_ok, handle_skips}
use skill_bridge_platform.Kafka.{KafkaMessage, Poll, each_record, run_consumer}
use skill_bridge_platform.Kafka.Polls.{fetched, run_consumer-each_record}

module _ {J D : Type 0} (json : Json J UserSkillsUpdated) (sql : SnapshotDb D) where
  abbrev pub consume : KafkaMessage J → Action D (Unit {0})
  consume m = handle_user_skills_updated json sql m.value

  -- The event of a message, if it names this user.
  abbrev pub event_of : String → KafkaMessage J → Option UserSkillsUpdated
  event_of v m = elim (json.unmarshal m.value) [
    | none ↦ none
    | some evt ↦ if evt.user_id == v then some evt else none
  ]

  -- The last of the messages' events that names the user.
  abbrev pub last_event : String → List (KafkaMessage J) → Option UserSkillsUpdated
  last_event v [] = none
  last_event v (m ∷ ms) = elim (last_event v ms) [ some evt ↦ some evt | none ↦ event_of v m ]

-- What an event, if there is one, has for a skill; without one it is as before.
abbrev pub snapshot_of : Option UserSkillsUpdated → String → Option String → Option String
snapshot_of none k before = before
snapshot_of (some evt) k before = skill_in k evt.skills

module _ {J D : Type 0} (json : Json J UserSkillsUpdated) (sql : SnapshotDb D)
    (laws : IsSnapshotDb sql) where
  open laws use {row}

  consume-row :
      (m : KafkaMessage J) (d : D) (v k : String)
      → v ≢ ""
      → (consume json sql m d).0 ≡ ok tt
      → row (consume json sql m d).1 v k ≡ snapshot_of (event_of json sql v m) k (row d v k)
  consume-row m d v k named done = elim (Option-cases (json.unmarshal m.value)) [
    | inl malformed ↦ ground (
      arith,
      malformed,
      handle_skips json sql laws m.value d (λ evt e. absurd (ground (arith, malformed, e))),
    )
    | inr (evt, decoded) ↦ elim (str_dec evt.user_id "") [
      | yes nobody ↦
          let only : (e : UserSkillsUpdated) → json.unmarshal m.value ≡ some e → e.user_id ≡ "" =
            λ e h. ground (arith, decoded, h, nobody) in
          ground (arith, decoded, nobody, named, handle_skips json sql laws m.value d only)
      | no someone ↦
          ground
            (arith, decoded, named, handle_ok json sql laws m.value evt d v k decoded someone done)
    ]
  ]

  -- Every message's handler succeeds, whatever the state.
  abbrev pub Reliable : Type 0
  Reliable = (m : KafkaMessage J) (d : D) → (consume json sql m d).0 ≡ ok tt

  snapshot_of-later :
      (later here : Option UserSkillsUpdated) (k : String) (before : Option String)
      → snapshot_of later k (snapshot_of here k before)
        ≡ snapshot_of (elim later [ some evt ↦ some evt | none ↦ here ]) k before
  snapshot_of-later none here k before = refl
  snapshot_of-later (some evt) here k before = refl

  each_record-row :
      (ms : List (KafkaMessage J)) (d : D) (v k : String)
      → Reliable
      → v ≢ ""
      → row (each_record (consume json sql) ms d) v k
        ≡ snapshot_of (last_event json sql v ms) k (row d v k)
  unfolding each_record
  each_record-row [] d v k reliable named = refl
  each_record-row (m ∷ ms) d v k reliable named =
      each_record-row ms (consume json sql m d).1 v k reliable named
      ∙ ap (snapshot_of (last_event json sql v ms) k) (consume-row m d v k named (reliable m d))
      ∙ snapshot_of-later (last_event json sql v ms) (event_of json sql v m) k (row d v k)

  -- After any polls, the snapshot has for each user the skills of the last event for that user among
  -- the records fetched before the context ended, and what it had before if there was none, as long
  -- as no call of the database fails.
  pub run_consumer-last_event :
      (ps : List (Poll J)) (d : D) (v k : String)
      → Reliable
      → v ≢ ""
      → row (run_consumer (consume json sql) ps d).1 v k
        ≡ snapshot_of (last_event json sql v (fetched ps)) k (row d v k)
  run_consumer-last_event ps d v k reliable named =
      ap (λ (out : Bool × D). row out.1 v k) (run_consumer-each_record (consume json sql) ps d)
      ∙ each_record-row (fetched ps) d v k reliable named
