-- ===== src/Events.antt =====
-- internal/events/events.go: events and their constructors. `time.Now()` is an argument, and so is the
-- text of a duration (`Duration.String`).
pub mod Bus
use chaos_kvs.Base.{ℕ, ◌≡◌, Option, none, some, String, ℤ}

pub data EventType : Type 0 where
  chaos_attack chaos_resume recovery_start recovery_success recovery_failed : EventType

unfoldable pub event_type_string : EventType → String
event_type_string chaos_attack = "chaos_attack"
event_type_string chaos_resume = "chaos_resume"
event_type_string recovery_start = "recovery_start"
event_type_string recovery_success = "recovery_success"
event_type_string recovery_failed = "recovery_failed"

-- `absent` is the empty string of an event that is no attack.
pub data AttackType : Type 0 where
  absent kill suspend delay : AttackType

unfoldable pub attack_type_string : AttackType → String
attack_type_string absent = ""
attack_type_string kill = "kill"
attack_type_string suspend = "suspend"
attack_type_string delay = "delay"

pub record EventData : Type 0 where
  pub attack_type : AttackType
  pub delay_duration : String
  pub attempt : ℕ
  pub error : String

pub record Event : Type 0 where
  pub event_type : EventType
  pub timestamp : ℕ
  pub node_id : String
  pub details : EventData

abbrev pub no_data : EventData
no_data = record { attack_type = absent; delay_duration = ""; attempt = 0; error = "" }

unfoldable pub new_chaos_attack_event : ℕ → String → AttackType → Event
new_chaos_attack_event now id attack = record {
  event_type = chaos_attack;
  timestamp = now;
  node_id = id;
  details = record no_data { attack_type = attack };
}

unfoldable pub new_chaos_attack_event_with_delay : (ℤ → String) → ℕ → String → ℤ → Event
new_chaos_attack_event_with_delay duration_string now id d = record {
  event_type = chaos_attack;
  timestamp = now;
  node_id = id;
  details = record no_data { attack_type = delay; delay_duration = duration_string d };
}

unfoldable pub new_chaos_resume_event : ℕ → String → Event
new_chaos_resume_event now id = record {
  event_type = chaos_resume;
  timestamp = now;
  node_id = id;
  details = no_data;
}

unfoldable pub new_recovery_start_event : ℕ → String → ℕ → Event
new_recovery_start_event now id attempt = record {
  event_type = recovery_start;
  timestamp = now;
  node_id = id;
  details = record no_data { attempt = attempt };
}

unfoldable pub new_recovery_success_event : ℕ → String → Event
new_recovery_success_event now id = record {
  event_type = recovery_success;
  timestamp = now;
  node_id = id;
  details = no_data;
}

abbrev pub error_text : Option String → String
error_text none = ""
error_text (some text) = text

-- An error is the text that it prints, or nil.
unfoldable pub new_recovery_failed_event : ℕ → String → Option String → Event
new_recovery_failed_event now id err = record {
  event_type = recovery_failed;
  timestamp = now;
  node_id = id;
  details = record no_data { error = error_text err };
}
