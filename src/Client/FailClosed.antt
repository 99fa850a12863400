-- ===== src/Client/FailClosed.antt =====
-- What the endpoints do when no backend answers.
use Prim.Native.Nat.{◌/◌}
use arka.Prelude.{
  ◌≡◌, ◌≢◌, refl, ap, true, false, none, some, List, [], ◌∷◌, Text, text_eq, text_eq_iff, All,
  All-map, filter-All, Bool-cases, inl, inr, codes, find, head?, ◌++◌,
}
use arka.Types.Core.{Mission, MissionState, ActionProposal, EmergencyStopStatus}
use arka.Client.{Client, Net, Outcome, returned, failure, request_meta, session_expired}
use arka.Client.Endpoints.{
  Fixtures, for_mission, sample_mission, get_mission, get_proposals, MissionPayload, Transition,
  Submitted, Rejected, ChainStatus, create_mission, transition_mission, submit_approval,
  reject_approval, trigger_emergency_stop, clear_emergency_stop, verify_audit_chain,
}
use arka.Client.Outcomes.{
  Offline, closed_error, request-mutation-offline, request-get-offline, sample_meta,
}

abbrev pub FailsClosed : {T : Type 0} → Net T → Client → Outcome T → Type 0
FailsClosed net c o = o ≡ returned (failure (request_meta net) (closed_error net c))

-- The networks of one call of each mutating endpoint.
pub record MutationNets : Type 0 where
  pub create : Net Mission
  pub transition : Net Transition
  pub submit : Net Submitted
  pub reject : Net Rejected
  pub trigger : Net EmergencyStopStatus
  pub clear : Net EmergencyStopStatus
  pub verify : Net ChainStatus

pub record AllOffline (n : MutationNets) : Type 0 where
  pub create : Offline n.create
  pub transition : Offline n.transition
  pub submit : Offline n.submit
  pub reject : Offline n.reject
  pub trigger : Offline n.trigger
  pub clear : Offline n.clear
  pub verify : Offline n.verify

-- With mock mutations off and no backend, every mutating endpoint fails: with the expired session
-- error if the session is too old, and with the unavailable error otherwise.
pub mutations_fail_closed :
    (n : MutationNets) (c : Client) (p : MissionPayload) (id hash operator reason : Text)
    (target : MissionState)
    → AllOffline n
    → c.allow_mock_mutations ≡ false
    → FailsClosed n.create c (create_mission p n.create c).0
      × FailsClosed n.transition c (transition_mission id target n.transition c).0
      × FailsClosed n.submit c (submit_approval id hash operator n.submit c).0
      × FailsClosed n.reject c (reject_approval id reason n.reject c).0
      × FailsClosed n.trigger c (trigger_emergency_stop reason operator n.trigger c).0
      × FailsClosed n.clear c (clear_emergency_stop reason operator n.clear c).0
      × FailsClosed n.verify c (verify_audit_chain n.verify c).0
unfolding create_mission transition_mission submit_approval reject_approval trigger_emergency_stop
    clear_emergency_stop verify_audit_chain
mutations_fail_closed n c p id hash operator reason target off k = (
  request-mutation-offline n.create _ _ _ _ c off.create refl k,
  request-mutation-offline n.transition _ _ _ _ c off.transition refl k,
  request-mutation-offline n.submit _ _ _ _ c off.submit refl k,
  request-mutation-offline n.reject _ _ _ _ c off.reject refl k,
  request-mutation-offline n.trigger _ _ _ _ c off.trigger refl k,
  request-mutation-offline n.clear _ _ _ _ c off.clear refl k,
  request-mutation-offline n.verify _ _ _ _ c off.verify refl k,
)

for_mission-All :
    {A : Type 0} (mission_of : A → Text) (id : Text) (xs : List A)
    → id ≢ []
    → All (λ x. mission_of x ≡ id) (for_mission mission_of (some id) xs)
unfolding for_mission
for_mission-All mission_of [] xs h = absurd (h refl)
for_mission-All mission_of (d ∷ id) xs h =
    All-map (λ x k. (text_eq_iff (mission_of x) (d ∷ id)).0 k) _
      (filter-All (λ x. text_eq (mission_of x) (d ∷ id)) xs)

-- Offline in development mode, with a session that has not expired, the proposals of a mission are
-- sample proposals of that mission only, and they are flagged as sample data.
pub get_proposals-offline :
    (fx : Fixtures) (id : Text) (net : Net (List ActionProposal)) (c : Client)
    → id ≢ []
    → Offline net
    → session_expired (net.date_now / 1000) c.session ≡ false
    → c.is_development_mode ≡ true
    → (xs : List ActionProposal) × ((get_proposals fx (some id) net c).0
        ≡ returned
            (record { success = true; payload = some xs; error = none; meta = sample_meta net }))
      × All (λ (p : ActionProposal). p.mission_id ≡ id) xs
unfolding get_proposals
get_proposals-offline fx id net c h off live dev = (
  for_mission (λ (p : ActionProposal). p.mission_id) (some id) fx.proposals,
  request-get-offline net (codes "/proposals") none _ c off live dev,
  for_mission-All (λ (p : ActionProposal). p.mission_id) id fx.proposals h,
)

find-none-ne :
    (id : Text) (ms : List Mission)
    → find (λ (m : Mission). text_eq m.id id) ms ≡ none
    → All (λ (m : Mission). m.id ≢ id) ms
find-none-ne id [] h = tt
find-none-ne id (m ∷ ms) h = elim (Bool-cases (text_eq m.id id)) [
  | inl same ↦ absurd (found same h)
  | inr other ↦ (λ e. cc (other, (text_eq_iff m.id id).1 e), find-none-ne id ms (rw other at h))
]
  where
    found : text_eq m.id id ≡ true → find (λ (x : Mission). text_eq x.id id) (m ∷ ms) ≡ none → ⊥
    found s k = cc (rw s at k)

sample_mission-none :
    (fx : Fixtures) (id : Text) (m : Mission) (ms : List Mission)
    → fx.missions ≡ m ∷ ms
    → find (λ (x : Mission). text_eq x.id id) fx.missions ≡ none
    → sample_mission fx id ≡ some m
unfolding sample_mission
sample_mission-none fx id m ms e missing = rw (missing, sample_mission) (ap head? e)

-- Offline in development mode, with a session that has not expired, a query for a mission that the
-- samples lack succeeds with the first sample mission, whose id is another.
pub get_mission-unknown :
    (fx : Fixtures) (id : Text) (net : Net Mission) (c : Client) (m : Mission) (ms : List Mission)
    → fx.missions ≡ m ∷ ms
    → find (λ (x : Mission). text_eq x.id id) fx.missions ≡ none
    → Offline net
    → session_expired (net.date_now / 1000) c.session ≡ false
    → c.is_development_mode ≡ true
    → ((get_mission fx id net c).0
        ≡ returned
            (record { success = true; payload = some m; error = none; meta = sample_meta net }))
      × (m.id ≢ id)
unfolding get_mission
get_mission-unknown fx id net c m ms e missing off live dev = (
  rw (sample_mission-none fx id m ms e missing)
      (request-get-offline net (codes "/missions/" ++ id) none m c off live dev),
  (rw e at (find-none-ne id fx.missions missing)).0,
)
