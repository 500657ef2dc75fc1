-- ===== src/Kafka/Tests.antt =====
-- Examples for the Kafka client, with the consumer of user.skills.updated on a table in memory.
use skill_bridge_platform.Base.{
  String, true, false, List, [], ◌∷◌, none, some, ◌≡◌, ◌≢◌, refl, arith, str_dec,
}
use skill_bridge_platform.Platform.{Json}
use skill_bridge_platform.Jobs.Model.{UserSkillsUpdated}
use skill_bridge_platform.Jobs.Snapshot.{
  handle_user_skills_updated, apply_event, replace_user_skills,
}
use skill_bridge_platform.Jobs.Snapshot.Replace.{row_in}
use skill_bridge_platform.Jobs.Memory.{memory_snapshot, memory_snapshot-IsSnapshotDb}
use skill_bridge_platform.Kafka.{KafkaMessage, Poll, run_consumer}
use skill_bridge_platform.Kafka.Polls.{fetched}
use skill_bridge_platform.Kafka.Projection.{
  consume, last_event, snapshot_of, Reliable, run_consumer-last_event,
}

-- An event is its own text.
abbrev event_json : Json UserSkillsUpdated UserSkillsUpdated
event_json = record { marshal = λ e. some e; unmarshal = λ e. some e }

abbrev event_with : String → UserSkillsUpdated
event_with proficiency = record {
  user_id = "ann";
  skills = record { skill_id = "go"; proficiency = proficiency } ∷ [];
  updated_at = "2";
}

abbrev message : UserSkillsUpdated → KafkaMessage UserSkillsUpdated
message e = record { topic = "user.skills.updated"; key = e.user_id; value = e }

always : Reliable event_json memory_snapshot memory_snapshot-IsSnapshotDb
unfolding handle_user_skills_updated apply_event replace_user_skills
always m d = elim (str_dec m.value.user_id "") [
  | yes empty ↦ ground (arith, empty)
  | no named ↦ elim m.value.skills [ [] ↦ ground (arith, named) | _ ∷ _ ↦ ground (arith, named) ]
]

-- Two events in one poll, a third in the next, and the end of the context in the poll after.
abbrev polls : List (Poll UserSkillsUpdated)
polls =
    record {
      done_before = false;
      done_after = false;
      records = message (event_with "novice") ∷ message (event_with "expert") ∷ [];
    }
    ∷ record { done_before = false; done_after = false; records = message (event_with "good") ∷ [] }
    ∷ record { done_before = false; done_after = true; records = message (event_with "lost") ∷ [] }
    ∷ []

ann_named : ◌≢◌ {A = String} "ann" ""
ann_named h = absurd (cc)

run_consumer-last_event_example :
    row_in "ann" "go" (run_consumer (consume event_json memory_snapshot) polls []).1
    ≡ snapshot_of (last_event event_json memory_snapshot "ann" (fetched polls)) "go" none
run_consumer-last_event_example =
    run_consumer-last_event event_json memory_snapshot memory_snapshot-IsSnapshotDb polls [] "ann"
      "go" always ann_named

kept : last_event event_json memory_snapshot "ann" (fetched polls) ≡ some (event_with "good")
unfolding str_dec
kept = refl
