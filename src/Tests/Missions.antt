-- ===== src/Tests/Missions.antt =====
-- The theorems on the mission form at concrete forms.
use arka.Prelude.{◌≡◌, refl, not, some, List, [], ◌∷◌, codes, trim}
use arka.Views.MissionCreation.{SimResult, initial_form, handle_test_simulator}
use arka.Views.MissionCreation.Events.{
  Event, query_typed, excluded_cidr_typed, excluded_cidr_added, fill,
}
use arka.Views.MissionCreation.Scope.{
  IsScoped, excluded_query, fill-initial_form-IsScoped, simulator-ignores_inclusions,
}

-- A public resolver, which no block or host of the new form includes
abbrev outside : List Event
outside = query_typed (codes "8.8.8.8") ∷ []

fill-initial_form-IsScoped_example :
    IsScoped (fill (excluded_cidr_typed (codes "x") ∷ excluded_cidr_added ∷ []) initial_form)
fill-initial_form-IsScoped_example =
    fill-initial_form-IsScoped (excluded_cidr_typed (codes "x") ∷ excluded_cidr_added ∷ [])

simulator-ignores_inclusions_example :
    (r : SimResult) × ((handle_test_simulator (fill outside initial_form)).sim_result ≡ some r)
    × (r.in_scope ≡ not (excluded_query (fill outside initial_form)))
unfolding fill trim
simulator-ignores_inclusions_example =
    simulator-ignores_inclusions outside (codes "10.42.18.0/24") [] refl refl
