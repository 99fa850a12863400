-- ===== src/Views/ProposalsView/Shown.antt =====
-- frontend/src/components/proposals/ProposalsView.tsx: what the badges of a proposal say, and what its
-- details hold.
use arka.Prelude.{
  ℕ, ◌≡◌, ◌≢◌, refl, ◌⊎◌, inl, inr, Bool, true, Option, none, some, List, ◌++◌, codes, sym, ap, ◌∙◌,
  drop, starts_with, false,
}
use arka.Prelude.Values.{obj}
use arka.Types.Core.{ActionProposal, ProposalDecision, RiskClass}
use arka.Security.Redaction.{is_redacted, redact_sensitive_data_lem}
use arka.Formatting.{get_risk_badge_class}
use arka.Views.Badge.{Variant, success, neutral, primary, warning, danger, variant_text}
use arka.Views.ProposalsView.{
  ProposalsPanel, ProposalDetails, proposals_page, proposal_details, details_of, row_variant,
  details_variant, selected_proposal,
}

has_clean_parameters : Option ProposalDetails → Bool
has_clean_parameters none = true
has_clean_parameters (some d) = is_redacted d.parameters

details_of-redacted :
    (can_open : Bool) (s : ProposalsPanel) (o : Option ActionProposal)
    → has_clean_parameters (details_of can_open s o) ≡ true
unfolding has_clean_parameters proposal_details
details_of-redacted can_open s none = refl
details_of-redacted can_open s (some p) =
    (redact_sensitive_data_lem (obj p.normalized_parameters)).0

-- Whatever is selected, the parameters in the details hold, at every depth, no token and no text
-- directly under a sensitive key but the marker for that key. A text in a list under such a key is
-- covered for tokens only.
pub proposals_page-redacted :
    (date_now : ℕ) (can_open : Bool) (s : ProposalsPanel) (proposals : List ActionProposal)
    (d : ProposalDetails)
    → (proposals_page date_now can_open s proposals).details ≡ some d
    → is_redacted d.parameters ≡ true
unfolding proposals_page has_clean_parameters
proposals_page-redacted date_now can_open s proposals d e =
    sym (ap has_clean_parameters e) ∙ details_of-redacted can_open s (selected_proposal s proposals)

pub Unresolved : ProposalDecision → Type 0
Unresolved d =
    (d ≡ ProposalDecision.invalid_proposal)
    ⊎ ((d ≡ ProposalDecision.expired_proposal) ⊎ (d ≡ ProposalDecision.unavailable_dependency))

-- A proposal that the kernel found invalid or expired, or could not evaluate, has the colour of an
-- allowed one in the list, whatever its risk, and that of a denied one in its details.
pub row_variant-Unresolved :
    (r : RiskClass) (d : ProposalDecision)
    → Unresolved d
    → (row_variant r d ≡ row_variant r ProposalDecision.allow)
      × (details_variant d ≡ details_variant ProposalDecision.deny)
unfolding Unresolved row_variant details_variant
row_variant-Unresolved r d (inl e) = rw e (refl, refl)
row_variant-Unresolved r d (inr (inl e)) = rw e (refl, refl)
row_variant-Unresolved r d (inr (inr e)) = rw e (refl, refl)

risk_class-starts : (r : RiskClass) → starts_with (get_risk_badge_class r) (codes "b") ≡ true
unfolding get_risk_badge_class
risk_class-starts RiskClass.observation = refl
risk_class-starts RiskClass.low = refl
risk_class-starts RiskClass.moderate = refl
risk_class-starts RiskClass.high = refl
risk_class-starts RiskClass.critical = refl

variant_text-starts : (v : Variant) → starts_with (variant_text v) (codes "b") ≡ false
variant_text-starts neutral = refl
variant_text-starts primary = refl
variant_text-starts success = refl
variant_text-starts warning = refl
variant_text-starts danger = refl

-- For no risk is the class that the view gives the badge of a risk one of the five that a badge has:
-- the prefix stands in it twice.
pub get_risk_badge_class-unknown :
    (r : RiskClass) (v : Variant)
    → codes "badge-" ++ get_risk_badge_class r ≢ codes "badge-" ++ variant_text v
get_risk_badge_class-unknown r v e =
    let same = ap (λ t. starts_with (drop 6 t) (codes "b")) e in
    let clash : true ≡ false = sym (risk_class-starts r) ∙ same ∙ variant_text-starts v in absurd cc
