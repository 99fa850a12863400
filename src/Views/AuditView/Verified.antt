-- ===== src/Views/AuditView/Verified.antt =====
-- frontend/src/components/audit/AuditView.tsx in App.tsx: what the audit page claims and shows.
use arka.Prelude.{ℕ, true, false, Option, none, some, List, Text, ◌≡◌, ap, ◌∙◌, sym, length}
use arka.Types.Core.{AuditRecord}
use arka.Client.{Client, Net}
use arka.Client.Endpoints.{ChainStatus}
use arka.Client.Outcomes.{Offline}
use arka.App.{App}
use arka.App.Handlers.{handle_verify_chain}
use arka.App.Failure.{handle_verify_chain-offline}
use arka.Security.Redaction.{is_redacted, redact_sensitive_data_lem}
use arka.Views.AuditView.{
  AuditState, Inspector, audit_view, status_badge, start_verify, finish_verify, verified_badge,
  selected, inspector,
}

-- With no backend and mock mutations off, a press of the button ends in the badge that says that
-- all records of the console are cryptographically verified.
pub handle_verify-offline :
    (net : Net ChainStatus) (app : App) (c : Client) (to_iso_string : ℕ → Text) (s : AuditState)
    → Offline net
    → c.allow_mock_mutations ≡ false
    → (audit_view to_iso_string app.audit_records
        (finish_verify (handle_verify_chain net (app, c)).0 (start_verify s))).status
      ≡ verified_badge (length app.audit_records)
unfolding audit_view status_badge finish_verify
handle_verify-offline net app c to_iso_string s off k =
    rw (handle_verify_chain-offline net app c off k)

inspector-redacted : (s : AuditState) (r : AuditRecord) → is_redacted (inspector s r).details ≡ true
unfolding inspector
inspector-redacted s r = (redact_sensitive_data_lem _).0

inspected-redacted :
    (s : AuditState) (o : Option AuditRecord) (i : Inspector)
    → elim o [ none ↦ none | some r ↦ some (inspector s r) ] ≡ some i
    → is_redacted i.details ≡ true
inspected-redacted s none i e = cc
inspected-redacted s (some r) i e =
    let same : inspector s r ≡ i = cc in
    ap (λ (x : Inspector). is_redacted x.details) (sym same) ∙ inspector-redacted s r

-- The details of the record in the inspector hold nothing that is to be hidden.
pub audit_view-redacted :
    (to_iso_string : ℕ → Text) (records : List AuditRecord) (s : AuditState) (i : Inspector)
    → (audit_view to_iso_string records s).inspected ≡ some i
    → is_redacted i.details ≡ true
unfolding audit_view
audit_view-redacted to_iso_string records s i e = inspected-redacted s (selected records s) i e
