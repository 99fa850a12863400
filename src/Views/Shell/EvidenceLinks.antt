-- ===== src/Views/Shell/EvidenceLinks.antt =====
-- frontend/src/App.tsx: where the buttons that name an evidence record lead.
use arka.Prelude.{ℕ, ◌≡◌, refl, some, List, ◌∷◌, Text, text_eq_refl}
use arka.Types.Core.{EvidenceRecord}
use arka.App.{App}
use arka.App.Events.{apply}
use arka.Views.EvidenceView.{
  EvidencePage, evidence_page, evidence_details, selected_evidence, initial_evidence,
}
use arka.Views.Chosen.{chosen, first_key}
use arka.Views.Shell.{select_evidence, active_view, view_of, evidence_view}

-- The page that the evidence view mounts with
unfoldable pub mounted : (ℕ → Text) → App → EvidencePage
mounted to_iso_string app =
    evidence_page to_iso_string (initial_evidence app.evidence_list) app.evidence_list

initial-selected :
    (e : EvidenceRecord) (es : List EvidenceRecord)
    → selected_evidence (initial_evidence (e ∷ es)) (e ∷ es) ≡ some e
unfolding selected_evidence initial_evidence chosen first_key
initial-selected e es = rw (text_eq_refl e.evidence_id) refl

-- Whichever record a button names, it opens the evidence view on the first record of the vault.
pub select_evidence-first :
    (to_iso_string : ℕ → Text) (evidence_id : Text) (app : App) (e : EvidenceRecord)
    (es : List EvidenceRecord)
    → app.evidence_list ≡ e ∷ es
    → (active_view (apply (select_evidence evidence_id) app) ≡ evidence_view)
      × ((mounted to_iso_string (apply (select_evidence evidence_id) app)).details
          ≡ evidence_details (initial_evidence (e ∷ es)) (some e))
unfolding active_view apply select_evidence view_of mounted evidence_page
select_evidence-first to_iso_string evidence_id app e es h =
    (refl, rw (h, initial-selected e es) refl)
