-- ===== src/Views/FindingDetailsPanel/Preview.antt =====
-- frontend/src/components/trace/FindingDetailsPanel.tsx: whose artifact the preview shows.
use arka.Prelude.{ℕ, ◌≡◌, ◌≢◌, refl, inl, inr, Option, none, some, List, [], ◌∷◌, map, Text, Any}
use arka.Types.FindingsTrace.{FindingTraceItem, FindingEvidenceArtifact}
use arka.Views.FindingDetailsPanel.{
  Details, DetailsTab, evidence, initial_details, Event, tab_pressed, artifact_pressed,
  preview_closed, copied, copy_expired, handle, panel_of, preview, artifact_row, evidence_body,
  body,
}

pub record Session : Type 0 where
  pub finding : FindingTraceItem
  pub details : Details

abbrev pub start : FindingTraceItem → Session
start f = record { finding = f; details = initial_details }

-- The controls on the page: the tabs always, and on the evidence tab the artifacts of the finding
-- that is shown and, with a preview, its close button.
abbrev pub Offers : Session → Event → Type 0
Offers s (artifact_pressed a) =
    (s.details.active_tab ≡ evidence) × Any (λ x. x ≡ a) s.finding.evidence_artifacts
Offers s (tab_pressed tab) = Unit
Offers s preview_closed = (s.details.active_tab ≡ evidence) × (s.details.selected_artifact ≢ none)
Offers s (copied text) = Unit
Offers s copy_expired = Unit

-- The findings shown since the last press that wrote the preview: of a tab, an artifact or the close
-- button
abbrev pub since : Event → FindingTraceItem → List FindingTraceItem → List FindingTraceItem
since (artifact_pressed a) f fs = f ∷ []
since (tab_pressed tab) f fs = f ∷ []
since preview_closed f fs = f ∷ []
since (copied text) f fs = fs
since copy_expired f fs = fs

-- What can come of the panel, with those findings, the last one first
pub data Reach : List FindingTraceItem → Session → Type 0 where
  opened : (f : FindingTraceItem) → Reach (f ∷ []) (start f)
  used :
      {fs : List FindingTraceItem} {s : Session}
      → Reach fs s
      → (e : Event) → Offers s e
      → Reach (since e s.finding fs) (record s { details = handle e s.details })
  shown :
      {fs : List FindingTraceItem} {s : Session}
      → Reach fs s
      → (g : FindingTraceItem) → Reach (g ∷ fs) (record s { finding = g })

-- A preview is open on the evidence tab only, with an artifact of one of the findings.
abbrev pub IsFresh : List FindingTraceItem → DetailsTab → Option FindingEvidenceArtifact → Type 0
IsFresh fs tab none = Unit
IsFresh fs tab (some a) =
    (tab ≡ evidence) × Any (λ (f : FindingTraceItem). Any (λ x. x ≡ a) f.evidence_artifacts) fs

IsFresh-more :
    (g : FindingTraceItem) (fs : List FindingTraceItem) (tab : DetailsTab)
    (a : Option FindingEvidenceArtifact)
    → IsFresh fs tab a
    → IsFresh (g ∷ fs) tab a
IsFresh-more g fs tab none h = tt
IsFresh-more g fs tab (some a) h = (h.0, inr h.1)

handle-IsFresh :
    (fs : List FindingTraceItem) (s : Session) (e : Event)
    → Offers s e
    → IsFresh fs s.details.active_tab s.details.selected_artifact
    → IsFresh
        (since e s.finding fs)
        (handle e s.details).active_tab
        (handle e s.details).selected_artifact
unfolding handle
handle-IsFresh fs s (tab_pressed tab) o h = tt
handle-IsFresh fs s (artifact_pressed a) o h = (o.0, inl o.1)
handle-IsFresh fs s preview_closed o h = tt
handle-IsFresh fs s (copied text) o h = h
handle-IsFresh fs s copy_expired o h = h

-- Whatever the operator does and whichever findings the panel is given, a preview is open on the
-- evidence tab only, and its artifact is one of a finding that was shown since the last press of a
-- tab, an artifact or the preview's close button, all of which write the preview.
pub Reach-IsFresh :
    {fs : List FindingTraceItem} {s : Session}
    → Reach fs s
    → IsFresh fs s.details.active_tab s.details.selected_artifact
Reach-IsFresh (opened f) = tt
Reach-IsFresh (used {fs} {s} r e o) = handle-IsFresh fs s e o (Reach-IsFresh r)
Reach-IsFresh (shown {fs} {s} r g) =
    IsFresh-more g fs s.details.active_tab s.details.selected_artifact (Reach-IsFresh r)

-- An artifact of one finding that is opened in the preview is still there when the panel is given
-- another finding: the evidence tab lists the artifacts of the new one beside it.
pub shown-stale :
    (to_iso_string size_text : ℕ → Text) (f g : FindingTraceItem) (a : FindingEvidenceArtifact)
    → Any (λ x. x ≡ a) f.evidence_artifacts
    → (s : Session) × Reach (g ∷ f ∷ []) s
      × ((panel_of to_iso_string size_text s.finding s.details).content
          ≡ evidence_body
              (map (artifact_row size_text s.details) g.evidence_artifacts)
              (preview (some a)))
unfolding panel_of body handle
shown-stale to_iso_string size_text f g a o =
    let pressed = used (used (opened f) (tab_pressed evidence) tt) (artifact_pressed a) (refl, o) in
    (_, shown pressed g, refl)
