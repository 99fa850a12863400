-- ===== src/Views/EvidenceView.antt =====
-- frontend/src/components/evidence/EvidenceView.tsx: the evidence records, beside the selected one.
use arka.Prelude.{
  is_text, ℕ, Bool, false, Option, none, some, List, [], ◌∷◌, Text, codes, split, map, length,
}
use arka.Types.Core.{
  EvidenceRecord, EvidenceRecordPayloadType, EvidenceRecordProvenance, EvidenceRecordTrustLevel,
  StandardCapability,
}
use arka.Types.Core.EvidenceRecordTrustLevel.{
  raw_untrusted_target_output, kernel_verified_signature,
}
use arka.Formatting.{format_timestamp, truncate_hash}
use arka.Views.Badge.{Badge, success, neutral}
use arka.Views.Chosen.{chosen, first_key, is_marked}

pub record EvidencePanel : Type 0 where
  pub selected_evidence_id : Text
  pub copied_hash : Option Text

unfoldable pub initial_evidence : List EvidenceRecord → EvidencePanel
initial_evidence evidence_list = record {
  selected_evidence_id = first_key (λ e. e.evidence_id) evidence_list;
  copied_hash = none;
}

unfoldable pub selected_evidence : EvidencePanel → List EvidenceRecord → Option EvidenceRecord
unfolding chosen
selected_evidence s evidence_list = chosen (λ e. e.evidence_id) s.selected_evidence_id evidence_list

pub data Event : Type 0 where
  row_pressed : Text → Event
  -- `handleCopy`, and what it schedules
  copied : Text → Event
  copy_expired : Event

unfoldable pub handle : Event → EvidencePanel → EvidencePanel
handle (row_pressed id) s = record s { selected_evidence_id = id }
handle (copied text) s = record s { copied_hash = some text }
handle copy_expired s = record s { copied_hash = none }

unfoldable pub trust_badge : EvidenceRecordTrustLevel → Badge
trust_badge kernel_verified_signature = record {
  variant = success;
  text = codes "SIGNED";
  pulse_dot = false;
  title = none;
}
trust_badge raw_untrusted_target_output = record {
  variant = neutral;
  text = codes "RAW TARGET";
  pulse_dot = false;
  title = none;
}

-- `parts[1]`
abbrev second : List Text → Option Text
second [] = none
second (t ∷ []) = none
second (t ∷ u ∷ ts) = some u

pub record EvidenceRow : Type 0 where
  pub is_selected : Bool
  pub payload_type : EvidenceRecordPayloadType
  pub trust : Badge
  pub capability : StandardCapability
  pub short_hash : Text
  -- the second word of the time; none is the record with no time
  pub time : Option Text

unfoldable pub evidence_row : (ℕ → Text) → EvidencePanel → EvidenceRecord → EvidenceRow
unfolding is_marked trust_badge
evidence_row to_iso_string s e = record {
  is_selected = is_marked (λ x. x.evidence_id) s.selected_evidence_id e;
  payload_type = e.payload_type;
  trust = trust_badge e.trust_level;
  capability = e.originating_capability;
  short_hash = truncate_hash 6 4 e.content_hash;
  time = second (split b' ' (format_timestamp to_iso_string e.timestamp_unix));
}

pub record EvidenceDetails : Type 0 where
  pub payload_type : EvidenceRecordPayloadType
  pub trust_level : EvidenceRecordTrustLevel
  pub evidence_id : Text
  pub mission_id : Text
  pub seal : Text
  pub provenance : EvidenceRecordProvenance
  pub content_hash : Text
  pub is_copied : Bool
  pub payload_preview : Text

-- The seal stands beside every record.
unfoldable pub evidence_details : EvidencePanel → Option EvidenceRecord → Option EvidenceDetails
evidence_details s none = none
evidence_details s (some e) = some (record {
  payload_type = e.payload_type;
  trust_level = e.trust_level;
  evidence_id = e.evidence_id;
  mission_id = e.mission_id;
  seal = codes "TAMPER-PROOF LEDGER SEAL";
  provenance = e.provenance;
  content_hash = e.content_hash;
  is_copied = is_text s.copied_hash e.content_hash;
  payload_preview = e.payload_preview;
})

pub record EvidencePage : Type 0 where
  pub total : ℕ
  pub rows : List EvidenceRow
  pub details : Option EvidenceDetails

unfoldable pub evidence_page : (ℕ → Text) → EvidencePanel → List EvidenceRecord → EvidencePage
unfolding evidence_row evidence_details selected_evidence
evidence_page to_iso_string s evidence_list = record {
  total = length evidence_list;
  rows = map (evidence_row to_iso_string s) evidence_list;
  details = evidence_details s (selected_evidence s evidence_list);
}
