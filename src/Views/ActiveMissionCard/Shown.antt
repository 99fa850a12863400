-- ===== src/Views/ActiveMissionCard/Shown.antt =====
-- frontend/src/components/missions/ActiveMissionCard.tsx: the card's counts, its alert and its
-- toolbar.
use arka.Prelude.{◌+◌, ◌⊎◌, inl, inr, none, List, [], ◌∷◌, ◌≡◌, refl, length, arith}
use arka.Types.AttackSurface.{DiscoveredAsset, ScopeStatus}
use arka.Views.ActiveMissionCard.{
  ActiveMissionCardProps, effective_counts, count_scope, is_authorized, is_unauthorized,
  is_excluded,
}

ScopeStatus-cases :
    (s : ScopeStatus)
    → (s ≡ ScopeStatus.authorized_in_scope)
      ⊎ ((s ≡ ScopeStatus.discovered_unauthorized) ⊎ (s ≡ ScopeStatus.hard_excluded))
ScopeStatus-cases ScopeStatus.authorized_in_scope = inl refl
ScopeStatus-cases ScopeStatus.discovered_unauthorized = inr (inl refl)
ScopeStatus-cases ScopeStatus.hard_excluded = inr (inr refl)

count_scope-add :
    (xs : List DiscoveredAsset)
    → count_scope is_authorized xs + count_scope is_unauthorized xs + count_scope is_excluded xs
      ≡ length xs
unfolding count_scope
count_scope-add [] = refl
count_scope-add (x ∷ xs) =
    let rest = count_scope-add xs in
    elim (ScopeStatus-cases x.scope_status) [
      | inl e ↦ rw e (omega arith)
      | inr (inl e) ↦ rw e (omega arith)
      | inr (inr e) ↦ rw e (omega arith)
    ]

-- Without counts of its own the card counts every asset in exactly one of its three tiles.
pub effective_counts-add :
    (props : ActiveMissionCardProps)
    → props.scope_counts ≡ none
    → (effective_counts props).authorized_count
        + (effective_counts props).discovered_out_of_scope_count
        + (effective_counts props).excluded_count
      ≡ length props.assets
unfolding effective_counts
effective_counts-add props h = rw h (count_scope-add props.assets)
