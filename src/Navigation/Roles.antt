-- ===== src/Navigation/Roles.antt =====
-- What each role sees of the sidebar.
use megoo_pm.Prelude.{
  ◌≡◌, refl, Bool, true, false, ◌||◌, not, Option, [], ◌∷◌, filter, if◌then◌else◌,
}
use megoo_pm.Text.{Text, text}
use megoo_pm.Navigation.{NavItem, primary_nav, home_route, role_is_admin, nav_for_role}

abbrev pub dashboard : NavItem
dashboard = record {
  title = text "Dashboard";
  href = home_route;
  description = text "Instance health, traffic and attack origins at a glance.";
  admin_only = false;
}

-- An admin sees every entry of the sidebar, and anyone else, signed in or not, only the dashboard.
pub nav_for_role-admin :
    (role : Option Text)
    → nav_for_role role ≡ (if role_is_admin role then primary_nav else dashboard ∷ [])
unfolding nav_for_role
nav_for_role-admin role = go (role_is_admin role)
  where
    go :
        (b : Bool)
        → filter (λ i. not i.admin_only || b) primary_nav
          ≡ (if b then primary_nav else dashboard ∷ [])
    go true = refl
    go false = refl
