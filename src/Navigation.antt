-- ===== src/Navigation.antt =====
-- frontend/src/config/nav.ts: the sidebar. Icons are left out.
pub mod Roles
use megoo_pm.Prelude.{
  Bool, true, false, ◌||◌, not, Option, none, some, List, [], ◌∷◌, filter, if◌then◌else◌,
}
use megoo_pm.Text.{Text, text, same}

pub record NavItem : Type 0 where
  pub title : Text
  pub href : Text
  pub description : Text
  pub admin_only : Bool

abbrev item : Text → Text → Text → NavItem
item title href description = record {
  title = title;
  href = href;
  description = description;
  admin_only = true;
}

unfoldable pub primary_nav : List NavItem
primary_nav =
    record {
      title = text "Dashboard";
      href = text "/";
      description = text "Instance health, traffic and attack origins at a glance.";
      admin_only = false;
    }
    ∷ item (text "Proxy Hosts") (text "/proxy-hosts")
        (text "Reverse-proxy hosts forwarding traffic to upstream services.")
    ∷ item (text "Upstream Pools") (text "/upstreams")
        (text "Backend server pools that proxy hosts and streams forward to.")
    ∷ item (text "Certificates") (text "/certificates")
        (text "TLS certificates and Let's Encrypt automation.")
    ∷ item (text "Access Lists") (text "/access-lists")
        (text "Authorization rules controlling who can reach a host.")
    ∷ item (text "Streams") (text "/streams") (text "Raw TCP/UDP stream forwarding.")
    ∷ item (text "Redirection Hosts") (text "/redirection-hosts")
        (text "Redirect domains to another domain with a chosen status code.")
    ∷ item (text "404 Hosts") (text "/dead-hosts")
        (text "Park domains and return a 404 for every request.")
    ∷ item (text "Custom Pages") (text "/custom-pages")
        (text "HTML pages you author here and reference elsewhere.")
    ∷ item (text "Security") (text "/security")
        (text "CrowdSec integration, bouncers and blocklists.")
    ∷ item (text "Live logs") (text "/live-logs")
        (text "Requests, errors and security events as they happen. Nothing is stored.")
    ∷ item (text "Users") (text "/users")
        (text "Accounts and roles for people who sign in to MegooPM.")
    ∷ item (text "Audit Log") (text "/audit-log")
        (text "Every change made through MegooPM, and who made it.")
    ∷ item (text "Backups") (text "/backups")
        (text "Encrypted copies of this instance, and restoring from one.")
    ∷ item (text "Settings") (text "/settings") (text "Instance configuration.")
    ∷ []

abbrev pub home_route : Text
home_route = text "/"

-- `none` is null or undefined.
abbrev pub role_is_admin : Option Text → Bool
role_is_admin none = false
role_is_admin (some role) = same role (text "admin")

unfoldable pub nav_for_role : Option Text → List NavItem
unfolding primary_nav
nav_for_role role = filter (λ item. not item.admin_only || role_is_admin role) primary_nav
