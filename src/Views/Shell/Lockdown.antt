-- ===== src/Views/Shell/Lockdown.antt =====
-- frontend/src/App.tsx: what the page shows of the emergency stop.
use arka.Prelude.{
  ◌≡◌, refl, Bool, true, false, not, any, any-append, Option, none, some, ◌++◌, Text, text_eq,
  arith, Bool-cases, subst, inl, inr,
}
use arka.App.{App}
use arka.Views.SideNav.{side_nav, has_halt_button}
use arka.Views.Shell.{
  AlertBanner, notice_banner, stop_banner, development_banner, banners, lockdown_title, Page,
  render,
}

pub is_lockdown : AlertBanner → Bool
is_lockdown b = text_eq b.title lockdown_title

notice-lockdown : (o : Option Text) → any is_lockdown (notice_banner o) ≡ false
unfolding notice_banner is_lockdown
notice-lockdown none = refl
notice-lockdown (some text) = ground arith

development-lockdown : (dev : Bool) → any is_lockdown (development_banner dev) ≡ false
unfolding development_banner is_lockdown
development-lockdown true = refl
development-lockdown false = refl

stop-lockdown :
    (active : Bool) (reason : Option Text) → any is_lockdown (stop_banner active reason) ≡ active
unfolding stop_banner is_lockdown
stop-lockdown true reason = refl
stop-lockdown false reason = refl

banners-lockdown : (app : App) → any is_lockdown (banners app) ≡ app.emergency_stop_status.active
unfolding banners
banners-lockdown app =
    rw
      (
        any-append is_lockdown (notice_banner app.banner_notice) (
            stop_banner app.emergency_stop_status.active app.emergency_stop_status.reason
            ++ development_banner app.is_dev_mode),
        any-append is_lockdown
            (stop_banner app.emergency_stop_status.active app.emergency_stop_status.reason)
            (development_banner app.is_dev_mode),
        notice-lockdown app.banner_notice,
        stop-lockdown app.emergency_stop_status.active app.emergency_stop_status.reason,
        development-lockdown app.is_dev_mode,
      )
      (ground arith)

Agrees : Option Page → Type 0
Agrees none = Unit
Agrees (some page) = any is_lockdown page.banners ≡ not page.side_nav.halt_button

render-Agrees : (operator_id : Text) (app : App) → Agrees (render operator_id app)
unfolding Agrees render side_nav has_halt_button
render-Agrees operator_id app = elim (Bool-cases app.initial_loading) [
  | inl loading ↦ rw loading tt
  | inr done ↦ rw done (ground (arith, banners-lockdown app))
]

-- On every page that is rendered, whichever view is open, the banner of the lockdown stands exactly
-- where the sidebar offers no halt.
pub render-lockdown :
    (operator_id : Text) (app : App) (page : Page)
    → render operator_id app ≡ some page
    → any is_lockdown page.banners ≡ not page.side_nav.halt_button
render-lockdown operator_id app page e =
    unfold Agrees in subst Agrees e (render-Agrees operator_id app)
