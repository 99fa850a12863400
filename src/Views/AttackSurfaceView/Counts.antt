-- ===== src/Views/AttackSurfaceView/Counts.antt =====
-- frontend/src/components/attackSurface/AttackSurfaceView.tsx: the numbers on the filters.
use arka.Prelude.{
  ◌+◌, ◌≡◌, refl, true, inl, inr, List, [], ◌∷◌, arith, Text, trim, length, filter, filter_same,
  filter_keeps, All, ap, ◌∙◌, ◌⊎◌, ◌&&◌,
}
use arka.Types.AttackSurface.{
  DiscoveredAsset, ScopeStatus, authorized_in_scope, discovered_unauthorized, hard_excluded,
}
use arka.Views.AttackSurfaceView.{
  ScopeFilter, all_assets, only, filtered_assets, matches_scope, matches_search, pill_count,
  status_count,
}

status-cases :
    (s : ScopeStatus)
    → (s ≡ authorized_in_scope) ⊎ ((s ≡ discovered_unauthorized) ⊎ (s ≡ hard_excluded))
status-cases authorized_in_scope = inl refl
status-cases discovered_unauthorized = inr (inl refl)
status-cases hard_excluded = inr (inr refl)

status_count-length :
    (assets : List DiscoveredAsset)
    → status_count authorized_in_scope assets
        + status_count discovered_unauthorized assets
        + status_count hard_excluded assets
      ≡ length assets
unfolding status_count
status_count-length [] = refl
status_count-length (a ∷ assets) =
    let ih = status_count-length assets in
    elim (status-cases a.scope_status) [
      | inl e ↦ rw e (omega (arith, ih))
      | inr (inl e) ↦ rw e (omega (arith, ih))
      | inr (inr e) ↦ rw e (omega (arith, ih))
    ]

matches_search-blank :
    (term : Text) → trim term ≡ [] → (a : DiscoveredAsset) → matches_search term a ≡ true
unfolding matches_search
matches_search-blank term h a = rw h refl

length-filtered :
    (f : ScopeFilter) (assets : List DiscoveredAsset)
    → length (filter (λ a. matches_scope f a) assets) ≡ pill_count f assets
unfolding pill_count status_count
length-filtered all_assets assets = ap length (filter_keeps _ assets (everything assets))
  where
    everything : (xs : List DiscoveredAsset) → All (λ a. true ≡ true) xs
    everything [] = tt
    everything (x ∷ xs) = (refl, everything xs)
length-filtered (only status) assets = refl

-- The number on each filter is that of the rows which it leaves while the search is blank, and the
-- three statuses together are all assets.
pub filtered_assets-pill_count :
    (f : ScopeFilter) (term id : Text) (assets : List DiscoveredAsset)
    → trim term ≡ []
    → (length (
          filtered_assets
            (record { search_term = term; scope_filter = f; selected_asset_id = id })
            assets)
        ≡ pill_count f assets)
      × (pill_count (only authorized_in_scope) assets
            + pill_count (only discovered_unauthorized) assets
            + pill_count (only hard_excluded) assets
          ≡ pill_count all_assets assets)
unfolding filtered_assets pill_count
filtered_assets-pill_count f term id assets h = (
  ap length (filter_same _ (λ a. matches_scope f a) (λ a. keeps a) assets)
      ∙ length-filtered f assets,
  status_count-length assets,
)
  where
    keeps : (a : DiscoveredAsset) → (matches_scope f a && matches_search term a) ≡ matches_scope f a
    keeps a = ground (arith, matches_search-blank term h a)
