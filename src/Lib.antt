-- ===== src/Lib.antt =====
-- The operator console of ARKA (frontend/src): a React client of a security kernel. Its parts:
--   Types       frontend/src/types: the records and unions that all parts exchange
--   Validation  frontend/src/utils/validation.ts: the checks of scope input; `isTargetExcluded` is
--               `is_target_excluded`, with `extract_port` for its handling of a port behind a colon
--               and `check_rules` for its three loops
--   Security    frontend/src/utils/security.ts: the redaction of JS values before they are shown
--   Formatting  frontend/src/utils/formatting.ts: times, countdowns and hashes as text
--   Client      frontend/src/api/client.ts: `request` is the method of that name, cut into
--               `http_request` (what is sent), `settle` (what its reply means) and
--               `offline_response` (the fallback); Client/Endpoints has a function per endpoint
--   Fixtures    frontend/src/api/mockData.ts and traceData.ts: the sample records, one by one;
--               `build_standard_stages` is `buildStandardStages`
--   App         frontend/src/App.tsx: the state cells, an `on_…` function for each uninterrupted
--               piece of a handler, App/Events has one event for everything that writes
--               the state, and App/Handlers composes the pieces with the client's calls
--   Views       frontend/src/components: layout/EmergencyStopControl.tsx, the dialog that calls the
--               handlers of App for an emergency stop, missions/MissionCreationView.tsx, the form for
--               a new mission and its simulator, missions/MissionsListView.tsx, the table with its
--               buttons (Transitions sets them beside the mission state machine of
--               frontend/tests/emergency_stop.test.ts), missions/ActiveMissionCard.tsx (with
--               MissionBadges for its badges) and overview/MissionOverviewView.tsx, what they show of
--               the console, approvals/ApprovalsView.tsx, the decisions on approvals with their two
--               dialogs, audit/AuditView.tsx, the audit trail and its verification,
--               common/Badge.tsx, trace/FindingsTraceTable.tsx, the table of findings (Page has its
--               controls and what it shows), trace/AgentFindingsTraceView.tsx (AgentFindingsTrace),
--               its page with the loads and the two effects, trace/FindingDetailsPanel.tsx, the
--               panel of one finding, trace/FindingLifecycleTimeline.tsx and
--               FindingLifecycleFlow.tsx (both in Lifecycle), and the six views that select one of
--               a list (Chosen): attackSurface/AttackSurfaceView.tsx, proposals/ProposalsView.tsx,
--               evidence/EvidenceView.tsx, findings/FindingsView.tsx, reports/ReportsView.tsx and
--               agents/AgentsAndTasksView.tsx; settings/SettingsView.tsx, layout/SideNav.tsx with
--               its halt dialog, layout/Header.tsx, and Shell, the page of App.tsx around the view
--               that the tab selects, with the banners of common/AlertBanner.tsx
--   Prelude     text, lists, integers and JS values; Tests  the theorems at concrete inputs
-- The views call the handlers, the handlers call the client and write the state, and the client
-- calls the browser.
--
-- What the code cannot be read for is a parameter. A call's `Net` supplies `Date.now()`,
-- `Math.random()` and `fetch`, the last one any function from the request to a way to end.
-- `localeCompare` is a parameter of the table; its order laws are the hypothesis `IsCollation`.
-- `Date.toISOString`, `Intl.NumberFormat`, `toFixed` and `JSON.stringify` are arguments of the
-- functions that format with them.
-- The endpoints take the sample records as the record `Fixtures`, so that what is stated of them
-- holds for any samples; `sample_fixtures` are those of the source. The regular expression of
-- `isValidHostname` is written as a matcher, and as a grammar in Validation/Hostnames.
--
-- Text is a list of codes; case conversion knows ASCII only. A number of the code is a
-- natural number, or an integer where `parseInt` or an exclusion's ports can make it negative;
-- `NaN` is `none`. Decimal text that `parseInt` reads is taken as exact, also beyond 2 ^ 53. Shifts
-- and masks keep their 32-bit wrap-around. One call reads the clock once. The calls of a
-- `Promise.all` are made in the order of the source, and a handler of App/Handlers is run from its
-- call to its end; interleavings are the lists of events of App/Events. The effects of
-- AgentFindingsTraceView.tsx run after each commit (`flush`); its loads are answered in any order.
--
-- Loops are structural, but for the digits of a number, whose fuel is the number plus 1: each round
-- divides it by at least ten.
--
-- Not modelled: markup, styles, icons and texts that never change; common/Modal.tsx and EmptyState.tsx,
-- which lay out what they are given; the focus and keyboard shortcuts; main.tsx and
-- api/backendContract.ts, which hold a mount and a table of endpoints that nothing reads; and the
-- services in other languages behind the API.
pub mod Prelude
pub mod Types
pub mod Validation
pub mod Security
pub mod Client
pub mod Formatting
pub mod Fixtures
pub mod App
pub mod Views
pub mod Tests
