-- ===== src/Settings/DefaultSite.antt =====
-- What the default site's form accepts and sends.
use megoo_pm.Prelude.{ℕ, ◌≡◌, refl, ap, ◌∙◌, ◌↔◌, true, false, Option, none, some, [], ◌∷◌, arith}
use megoo_pm.Text.{Text, text, is_empty, trim, starts_with}
use megoo_pm.Settings.{
  SiteMode, congratulations, not_found, no_response, redirected, custom, SiteForm, SiteSettings,
  is_http_url, url_problem, validate_settings_form, build_default_site_payload,
}

-- The settings of each mode: its own field, and no other.
abbrev pub SiteOk : SiteMode → Option Text → Option ℕ → Type 0
SiteOk redirected url page = ((u : Text) × (url ≡ some u) × (is_http_url u ≡ true)) × (page ≡ none)
SiteOk custom url page = (url ≡ none) × ((p : ℕ) × (page ≡ some p))
SiteOk _ url page = (url ≡ none) × (page ≡ none)

abbrev pub IsSite : SiteSettings → Type 0
IsSite s = SiteOk s.default_site_mode s.default_site_redirect_url s.default_site_page_id

http_url_full : (url : Text) → is_http_url url ≡ true → is_empty url ≡ false
unfolding is_http_url starts_with text
http_url_full [] h = ground arith
http_url_full (c ∷ url) h = refl

url_problem_iff : (url : Text) → (url_problem url ≡ none) ↔ (is_http_url url ≡ true)
url_problem_iff url = (λ h. ground arith, λ h. ground (arith, http_url_full url h))

-- The form is accepted exactly when what it sends is complete: for a redirect an address that
-- starts with http:// or https://, for a custom page its page, and nothing besides.
pub validate_settings_form_iff :
    (state : SiteForm)
    → (validate_settings_form state ≡ none) ↔ IsSite (build_default_site_payload state)
unfolding validate_settings_form build_default_site_payload
validate_settings_form_iff state = go state.mode state.page_id
  where
    go :
        (mode : SiteMode) (page : Option ℕ)
        → let s : SiteForm = record {
          mode = mode;
          redirect_url = state.redirect_url;
          page_id = page;
        } in
          (validate_settings_form s ≡ none) ↔ IsSite (build_default_site_payload s)
    go redirected page =
        let (a, b) = url_problem_iff (trim state.redirect_url) in
        (
          λ h. ((trim state.redirect_url, refl, a (ground arith)), refl),
          λ ((u, e, ok), none_page).
              let spelled : trim state.redirect_url ≡ u = cc in
              let web : is_http_url (trim state.redirect_url) ≡ true =
                ap is_http_url spelled ∙ ok in
              rw (b web) refl,
        )
    go custom none = (λ h. absurd (ground arith), λ (a, (p, e)). absurd (ground arith))
    go custom (some p) = (λ h. (refl, (p, refl)), λ k. refl)
    go congratulations page = (λ h. (refl, refl), λ k. refl)
    go not_found page = (λ h. (refl, refl), λ k. refl)
    go no_response page = (λ h. (refl, refl), λ k. refl)
