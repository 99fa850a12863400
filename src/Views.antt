-- ===== src/Views.antt =====
-- frontend/src/components: the views of the console, and the page around them.
pub mod EmergencyStopControl
pub mod MissionCreation
pub mod FindingsTraceTable
pub mod ApprovalsView
pub mod SideNav
pub mod FindingDetailsPanel
pub mod Lifecycle
pub mod Chosen
pub mod AttackSurfaceView
pub mod ProposalsView
pub mod EvidenceView
pub mod FindingsView
pub mod ReportsView
pub mod AgentsAndTasksView
pub mod SettingsView
pub mod Header
pub mod Shell
pub mod Badge
pub mod AuditView
pub mod AgentFindingsTrace
pub mod MissionBadges
pub mod ActiveMissionCard
pub mod MissionOverview
pub mod MissionsListView
