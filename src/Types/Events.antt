-- ===== src/Types/Events.antt =====
-- frontend/lib/types.ts: risk and audit events.
use fintech_innova_hack.Prelude.{Bool, Option, List}
use fintech_innova_hack.Prelude.Text.{Text}
use fintech_innova_hack.Prelude.Int.{ℤ}
use fintech_innova_hack.Json.{Entries}
use fintech_innova_hack.Types.Scalars.{Money, Timestamp}

pub record RiskEvent : Type 0 where
  pub id : Text
  pub event_type : Text
  pub severity : Text
  pub subject_type : Option Text
  pub subject_id : Option Text
  pub detail : Entries
  pub created_at : Option Timestamp

pub record AuditEventRef : Type 0 where
  pub seq : ℤ
  pub event_type : Text
  pub actor_type : Text
  pub resource_id : Option (Option Text)
  pub event_hash : Option Text
  pub prev_hash : Option Text
  pub created_at : Option Timestamp

pub record AuditEvent : Type 0 where
  pub id : Text
  pub seq : ℤ
  pub actor_type : Text
  pub event_type : Text
  pub resource_id : Option Text
  pub event_hash : Text
  pub prev_hash : Text
  pub created_at : Timestamp

pub record RiskSummaryEventsByType : Type 0 where
  pub event_type : Text
  pub count : ℤ

pub record RiskSummary : Type 0 where
  pub critical_events : ℤ
  pub high_events : ℤ
  pub total_events : ℤ
  pub frozen_agents : ℤ
  pub frozen_vaults : ℤ
  pub blocked_transactions : ℤ
  pub blocked_value_minor : Money
  pub active_monitoring_rules : ℤ
  pub events_by_type : List RiskSummaryEventsByType

pub record ChainVerification : Type 0 where
  pub intact : Bool
  pub first_broken_seq : Option ℤ

pub record LabelMaps : Type 0 where
  pub audit : List (Text × Text)
  pub risk : List (Text × Text)

pub record ActivityEvent : Type 0 where
  pub seq : ℤ
  pub event_type : Text
  pub label : Text
  pub actor_type : Text
  pub actor_id : Option Text
  pub resource_id : Option Text
  pub payload : Entries
  pub created_at : Option Timestamp
