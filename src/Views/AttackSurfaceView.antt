-- ===== src/Views/AttackSurfaceView.antt =====
-- frontend/src/components/attackSurface/AttackSurfaceView.tsx: the discovered assets, by scope status
-- and search, beside the one that is selected.
pub mod Counts
use arka.Prelude.{
  ℕ, ◌-◌, Bool, true, false, ◌&&◌, ◌||◌, Option, none, some, List, [], ◌∷◌, ◌++◌, Text, codes, trim,
  is_empty, includes, to_lower_case, any, filter, map, length, take, if◌then◌else◌, ltb, to_string,
  is_some,
}
use arka.Types.AttackSurface.{
  DiscoveredAsset, DiscoveredAssetOpenPorts, DiscoveredAssetOpenPortsProtocol,
  DiscoveredAssetSensitivity, ScopeStatus, authorized_in_scope, discovered_unauthorized,
  hard_excluded,
}
use arka.Types.AttackSurface.DiscoveredAssetOpenPortsProtocol.{tcp, udp}
use arka.Formatting.{format_timestamp, replace_first}
use arka.Views.Badge.{Badge, Variant, success, danger, warning, neutral}
use arka.Views.Chosen.{chosen, first_key, is_marked}

pub data ScopeFilter : Type 0 where
  all_assets : ScopeFilter
  only : ScopeStatus → ScopeFilter

pub record Surface : Type 0 where
  pub search_term : Text
  pub scope_filter : ScopeFilter
  pub selected_asset_id : Text

unfoldable pub initial_surface : List DiscoveredAsset → Surface
initial_surface assets = record {
  search_term = [];
  scope_filter = all_assets;
  selected_asset_id = first_key (λ a. a.id) assets;
}

abbrev pub same_status : ScopeStatus → ScopeStatus → Bool
same_status authorized_in_scope authorized_in_scope = true
same_status discovered_unauthorized discovered_unauthorized = true
same_status hard_excluded hard_excluded = true
same_status _ _ = false

abbrev pub matches_scope : ScopeFilter → DiscoveredAsset → Bool
matches_scope all_assets asset = true
matches_scope (only status) asset = same_status asset.scope_status status

-- The untrimmed term is what is searched for.
unfoldable pub matches_search : Text → DiscoveredAsset → Bool
matches_search search_term asset =
    is_empty (trim search_term)
    || includes (to_lower_case asset.target) (to_lower_case search_term)
    || any (λ t. includes (to_lower_case t) (to_lower_case search_term))
        asset.fingerprinted_technologies
    || any (λ p. includes (to_lower_case p.service) (to_lower_case search_term)) asset.open_ports

unfoldable pub filtered_assets : Surface → List DiscoveredAsset → List DiscoveredAsset
unfolding matches_search
filtered_assets s assets =
    filter (λ asset. matches_scope s.scope_filter asset && matches_search s.search_term asset)
      assets

unfoldable pub selected_asset : Surface → List DiscoveredAsset → Option DiscoveredAsset
unfolding chosen
selected_asset s assets = chosen (λ a. a.id) s.selected_asset_id assets

unfoldable pub status_count : ScopeStatus → List DiscoveredAsset → ℕ
status_count status assets = length (filter (λ a. same_status a.scope_status status) assets)

-- The number on a filter's button
unfoldable pub pill_count : ScopeFilter → List DiscoveredAsset → ℕ
unfolding status_count
pill_count all_assets assets = length assets
pill_count (only status) assets = status_count status assets

unfoldable pub status_badge : ScopeStatus → Badge
status_badge authorized_in_scope = record {
  variant = success;
  text = codes "AUTHORIZED";
  pulse_dot = true;
  title = none;
}
status_badge hard_excluded = record {
  variant = danger;
  text = codes "EXCLUDED";
  pulse_dot = false;
  title = none;
}
status_badge discovered_unauthorized = record {
  variant = warning;
  text = codes "DISCOVERED (INERT)";
  pulse_dot = false;
  title = none;
}

abbrev protocol_text : DiscoveredAssetOpenPortsProtocol → Text
protocol_text tcp = codes "TCP"
protocol_text udp = codes "UDP"

unfoldable pub port_chip : DiscoveredAssetOpenPorts → Text
port_chip p = to_string p.port ++ (codes "/" ++ to_lower_case (protocol_text p.protocol))

-- `texts.join(', ')`
unfoldable pub join_comma : List Text → Text
join_comma [] = []
join_comma (t ∷ []) = t
join_comma (t ∷ u ∷ ts) = t ++ (codes ", " ++ join_comma (u ∷ ts))

unfoldable pub technologies_text : List Text → Text
unfolding join_comma
technologies_text ts =
    join_comma (take 2 ts)
    ++ (if ltb 2 (length ts) then codes " (+" ++ (to_string (length ts - 2) ++ codes ")") else [])

abbrev sensitivity_text : DiscoveredAssetSensitivity → Text
sensitivity_text DiscoveredAssetSensitivity.public_dmz = codes "PUBLIC_DMZ"
sensitivity_text DiscoveredAssetSensitivity.confidential_internal = codes "CONFIDENTIAL_INTERNAL"
sensitivity_text DiscoveredAssetSensitivity.restricted_hsm = codes "RESTRICTED_HSM"

abbrev sensitivity_variant : DiscoveredAssetSensitivity → Variant
sensitivity_variant DiscoveredAssetSensitivity.restricted_hsm = danger
sensitivity_variant DiscoveredAssetSensitivity.public_dmz = neutral
sensitivity_variant DiscoveredAssetSensitivity.confidential_internal = neutral

pub record AssetRow : Type 0 where
  pub is_selected : Bool
  pub target : Text
  pub status : Badge
  pub ports : List Text
  pub technologies : Text
  pub sensitivity : Badge
  pub last_observed : Text

unfoldable pub asset_row : (ℕ → Text) → Surface → DiscoveredAsset → AssetRow
unfolding is_marked status_badge port_chip technologies_text
asset_row to_iso_string s asset = record {
  is_selected = is_marked (λ a. a.id) s.selected_asset_id asset;
  target = asset.target;
  status = status_badge asset.scope_status;
  ports = map port_chip asset.open_ports;
  technologies = technologies_text asset.fingerprinted_technologies;
  sensitivity = record {
    variant = sensitivity_variant asset.sensitivity;
    text = replace_first b'_' (codes " ") (sensitivity_text asset.sensitivity);
    pulse_dot = false;
    title = none;
  };
  last_observed = format_timestamp to_iso_string asset.last_observed_unix;
}

-- The note on the status of the asset in the inspector
unfoldable pub inspector_note : ScopeStatus → Option Text
inspector_note authorized_in_scope = none
inspector_note discovered_unauthorized = some (
    codes
      "Observed during reconnaissance, but not authorized for active assessment. Targeting is blocked by kernel policy.")
inspector_note hard_excluded =
    some
      (codes "Matches mission exclusion boundary. All automated interactions are strictly denied.")

pub record Inspector : Type 0 where
  pub asset : DiscoveredAsset
  pub note : Option Text
  -- the evidence that the button opens, if the asset names one and the view is given the callback
  pub evidence_button : Option Text

abbrev button_for : Bool → Option Text → Option Text
button_for false ref = none
button_for true none = none
button_for true (some ref) = if is_empty ref then none else some ref

unfoldable pub inspector : Bool → Option DiscoveredAsset → Option Inspector
unfolding inspector_note
inspector can_open none = none
inspector can_open (some a) = some (record {
  asset = a;
  note = inspector_note a.scope_status;
  evidence_button = button_for can_open a.evidence_ref;
})

-- The rows, none of which is the line "No assets matching the current filter.", and the inspector
unfoldable pub surface_view :
    (ℕ → Text) → Bool → Surface → List DiscoveredAsset → List AssetRow × Option Inspector
unfolding asset_row filtered_assets inspector selected_asset
surface_view to_iso_string can_open s assets = (
  map (asset_row to_iso_string s) (filtered_assets s assets),
  inspector can_open (selected_asset s assets),
)
