-- ===== src/Views/AuditView.antt =====
-- frontend/src/components/audit/AuditView.tsx: the audit trail, its verification and the inspector of
-- a record. `Date.toISOString` is an argument; the inspected details are shown before they become
-- JSON text.
pub mod Verified
use arka.Prelude.{
  is_text, ℕ, zero, suc, Bool, true, false, Option, none, some, List, [], ◌∷◌, ◌++◌, map, Text,
  codes, text_eq, find, head?, if◌then◌else◌, to_string, length, leb, ltb, ◌-◌, Value,
}
use arka.Prelude.Values.{obj}
use arka.Types.Core.{AuditRecord, AuditRecordEventType}
use arka.Client.Endpoints.{ChainStatus}
use arka.Formatting.{format_timestamp, truncate_hash}
use arka.Security.{redact_sensitive_data}
use arka.Views.Badge.{Badge, Variant}

pub record AuditState : Type 0 where
  pub selected_record_id : Text
  pub is_verifying : Bool
  pub verification_result : Option ChainStatus
  pub copied_hash : Option Text

-- `records[0]?.event_id || ''`
unfoldable pub initial_state : List AuditRecord → AuditState
initial_state records = record {
  selected_record_id = elim (head? records) [ none ↦ [] | some r ↦ r.event_id ];
  is_verifying = false;
  verification_result = none;
  copied_hash = none;
}

unfoldable pub selected : List AuditRecord → AuditState → Option AuditRecord
selected records s =
    elim (find (λ (r : AuditRecord). text_eq r.event_id s.selected_record_id) records) [
      | some r ↦ some r
      | none ↦ head? records
    ]

-- `handleVerify` before it waits for `onVerifyChain`, and after it: `none` is that it threw.
unfoldable pub start_verify : AuditState → AuditState
start_verify s = record s { is_verifying = true }

unfoldable pub finish_verify : Option ChainStatus → AuditState → AuditState
finish_verify res s = record s { verification_result = res; is_verifying = false }

-- `handleCopy`, and what it schedules
unfoldable pub handle_copy : Text → AuditState → AuditState
handle_copy text s = record s { copied_hash = some text }

unfoldable pub copy_expired : AuditState → AuditState
copy_expired s = record s { copied_hash = none }

unfoldable pub select_record : Text → AuditState → AuditState
select_record id s = record s { selected_record_id = id }

abbrev pub plain_badge : Variant → Bool → Text → Badge
plain_badge variant pulse_dot text = record {
  variant = variant;
  text = text;
  pulse_dot = pulse_dot;
  title = none;
}

abbrev pub verified_badge : ℕ → Badge
verified_badge blocks =
    plain_badge Variant.success true
      (codes "ALL " ++ to_string blocks ++ codes " BLOCKS CRYPTOGRAPHICALLY VERIFIED")

abbrev pub required_badge : Badge
required_badge = plain_badge Variant.neutral false (codes "VERIFICATION REQUIRED")

unfoldable pub status_badge : AuditState → Badge
status_badge s = elim s.verification_result [
  | none ↦ required_badge
  | some r ↦ if r.system_chain_valid then verified_badge r.verified_blocks else required_badge
]

-- The button: whether it is disabled, and its text
pub record VerifyButton : Type 0 where
  pub disabled : Bool
  pub text : Text

unfoldable pub verify_button : AuditState → VerifyButton
verify_button s = record {
  disabled = s.is_verifying;
  text = if s.is_verifying then codes "Verifying Merkle Roots..." else codes "Verify Hash Chain";
}

-- 'EMERGENCY_STOP' and 'AUTHORIZED' in the name of the type
unfoldable pub event_variant : AuditRecordEventType → Variant
event_variant AuditRecordEventType.emergency_stop_triggered = Variant.danger
event_variant AuditRecordEventType.emergency_stop_cleared = Variant.danger
event_variant AuditRecordEventType.action_authorized = Variant.success
event_variant _ = Variant.neutral

-- `padStart(5, '0')`
unfoldable pub zeros : ℕ → Text
zeros zero = []
zeros (suc n) = b'0' ∷ zeros n

unfoldable pub padded : Text → Text
unfolding zeros
padded s = zeros (5 - length s) ++ s

pub record AuditRow : Type 0 where
  pub is_selected : Bool
  pub sequence : Text
  pub event_type : AuditRecordEventType
  pub variant : Variant
  pub timestamp : Text
  pub actor_id : Text
  pub current_hash : Text

unfoldable pub audit_row : (ℕ → Text) → AuditState → AuditRecord → AuditRow
unfolding padded event_variant
audit_row to_iso_string s r = record {
  is_selected = text_eq r.event_id s.selected_record_id;
  sequence = codes "#" ++ padded (to_string r.sequence_number);
  event_type = r.event_type;
  variant = event_variant r.event_type;
  timestamp = format_timestamp to_iso_string r.timestamp_unix;
  actor_id = r.actor_id;
  current_hash = truncate_hash 6 4 r.current_hash;
}

pub record Inspector : Type 0 where
  pub block : Text
  pub seal : Badge
  pub event_type : AuditRecordEventType
  pub event_id : Text
  pub previous_hash : Text
  pub current_hash : Text
  pub is_copied : Bool
  pub signature : Text
  pub details : Value

unfoldable pub inspector : AuditState → AuditRecord → Inspector
inspector s r = record {
  block = codes "AUDIT BLOCK #" ++ to_string r.sequence_number;
  seal = plain_badge Variant.success false (codes "VERIFIED SEAL");
  event_type = r.event_type;
  event_id = r.event_id;
  previous_hash = r.previous_hash;
  current_hash = r.current_hash;
  is_copied = is_text s.copied_hash r.current_hash;
  signature = r.signature;
  details = redact_sensitive_data (obj r.details);
}

pub record AuditPage : Type 0 where
  pub status : Badge
  pub button : VerifyButton
  pub rows : List AuditRow
  pub inspected : Option Inspector

unfoldable pub audit_view : (ℕ → Text) → List AuditRecord → AuditState → AuditPage
unfolding status_badge verify_button audit_row selected inspector
audit_view to_iso_string records s = record {
  status = status_badge s;
  button = verify_button s;
  rows = map (audit_row to_iso_string s) records;
  inspected = elim (selected records s) [ none ↦ none | some r ↦ some (inspector s r) ];
}
