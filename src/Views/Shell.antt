-- ===== src/Views/Shell.antt =====
-- frontend/src/App.tsx: what the console renders around its views, and which view that is. The texts
-- that never change are left out, but for the banners' titles.
pub mod Navigation
pub mod Lockdown
pub mod EvidenceLinks
use arka.Prelude.{
  Bool, true, false, Option, none, some, List, [], ◌∷◌, ◌++◌, Text, codes, is_empty, if◌then◌else◌,
}
use arka.App.{App, NavDestination}
use arka.App.Events.{Event, tab_opened}
use arka.Types.Settings.{PlatformSettings, PlatformSettingsTheme, PlatformSettingsDensity}
use arka.Views.Header.{HeaderBar, header}
use arka.Views.SideNav.{SideBar, side_nav}

-- frontend/src/components/common/AlertBanner.tsx
pub data BannerVariant : Type 0 where
  warning danger info success : BannerVariant

pub record AlertBanner : Type 0 where
  pub variant : BannerVariant
  pub title : Text
  pub text : Text
  pub is_dismissible : Bool

-- the role that a screen reader is told
unfoldable pub role : BannerVariant → Text
role danger = codes "alert"
role warning = codes "alert"
role info = codes "status"
role success = codes "status"

unfoldable pub notice_banner : Option Text → List AlertBanner
notice_banner none = []
notice_banner (some notice) =
    if is_empty notice
    then []
    else record {
      variant = info;
      title = codes "System Operational Notice";
      text = notice;
      is_dismissible = true;
    }
      ∷ []

-- `reason || 'Manual override'`
abbrev justification : Option Text → Text
justification none = codes "Manual override"
justification (some reason) = if is_empty reason then codes "Manual override" else reason

abbrev pub lockdown_title : Text
lockdown_title = codes "EMERGENCY STOP ACTIVATED — OPERATIONAL LOCKDOWN"

unfoldable pub stop_banner : Bool → Option Text → List AlertBanner
stop_banner false reason = []
stop_banner true reason =
    record {
      variant = danger;
      title = lockdown_title;
      text =
          codes
            "The ARKA Security Kernel is in fail-closed lockdown. All agent execution broker processes are terminated. Justification: \""
          ++ (justification reason
              ++ codes
                  "\". Clear the emergency stop with authorized operator credentials to resume.");
      is_dismissible = false;
    }
    ∷ []

unfoldable pub development_banner : Bool → List AlertBanner
development_banner false = []
development_banner true =
    record {
      variant = warning;
      title = codes "DEVELOPMENT INTEGRATION MODE";
      text =
          codes
            "Connected to local development fixtures mirroring TRD v2.2 wire contracts. Production actions require an active arka-apid daemon with mutually authenticated TLS.";
      is_dismissible = false;
    }
    ∷ []

unfoldable pub banners : App → List AlertBanner
unfolding notice_banner stop_banner development_banner
banners app =
    notice_banner app.banner_notice
    ++ (stop_banner app.emergency_stop_status.active app.emergency_stop_status.reason
        ++ development_banner app.is_dev_mode)

-- The views that the content area dispatches to
pub data View : Type 0 where
  overview_view mission_creation_view missions_list_view attack_surface_view proposals_view
        approvals_view agents_view evidence_view findings_view findings_trace_view reports_view
        audit_view settings_view :
      View

unfoldable pub view_of : Bool → NavDestination → View
view_of creating NavDestination.overview = overview_view
view_of true NavDestination.missions = mission_creation_view
view_of false NavDestination.missions = missions_list_view
view_of creating NavDestination.attack_surface = attack_surface_view
view_of creating NavDestination.proposals = proposals_view
view_of creating NavDestination.approvals = approvals_view
view_of creating NavDestination.agents = agents_view
view_of creating NavDestination.evidence = evidence_view
view_of creating NavDestination.findings = findings_view
view_of creating NavDestination.findings_trace = findings_trace_view
view_of creating NavDestination.reports = reports_view
view_of creating NavDestination.audit = audit_view
view_of creating NavDestination.settings = settings_view

unfoldable pub active_view : App → View
unfolding view_of
active_view app = view_of app.is_creating_mission app.current_tab

-- `onSelectEvidence`, which takes no argument
unfoldable pub select_evidence : Text → Event
select_evidence evidence_id = tab_opened NavDestination.evidence

-- The settings that the view is given before there are any
unfoldable pub shown_settings : App → PlatformSettings
shown_settings app = elim app.settings [
  | some settings ↦ settings
  | none ↦ record {
    theme = PlatformSettingsTheme.dark;
    density = PlatformSettingsDensity.comfortable;
    reduced_motion = false;
    providers = [];
    workers = [];
    default_mission_budget_usd = 50;
    default_tool_timeout_seconds = 120;
    hardware_token_enforcement = true;
    data_handling = record {
      dlp_masking_active = true;
      evidence_retention_days = 90;
      audit_chain_dual_signing = true;
    };
  }
]

pub record Page : Type 0 where
  pub header : HeaderBar
  pub side_nav : SideBar
  pub banners : List AlertBanner
  pub view : View

-- `none` is the page "Establishing cryptographically verified session...".
unfoldable pub render : Text → App → Option Page
unfolding banners active_view
render operator_id app =
    if app.initial_loading
    then none
    else some (record {
      header = header operator_id app;
      side_nav = side_nav app;
      banners = banners app;
      view = active_view app;
    })
