-- ===== src/Domains/Tests.antt =====
-- Tests and examples for the domain fields.
use megoo_pm.Domains.Tags.{
  Tags, TagEvent, changed, committed, backspaced, blurred, pasted, removed, tag_run, IsClean,
  tag_run-IsClean,
}
use megoo_pm.Prelude.{List, false, ◌≡◌, refl, ◌↔◌, true, [], ◌∷◌, ◌++◌}
use megoo_pm.Text.{Text, text, same, has, is_space, trim}
use megoo_pm.Text.Ascii.{ascii_lower}
use megoo_pm.Domains.{
  split, normalize_domain, is_alnum, is_inner, is_separator, is_valid_domain, parse_domains,
  add_domains,
}
use megoo_pm.Domains.Grammar.{IsDomain, is_valid_domain_iff}
use megoo_pm.Domains.Parsing.{names_of, news}
use megoo_pm.Domains.Adding.{valids, invalids, add_domains-news}

abbrev typed : Text
typed = text " A.example, b.c-d.org\n*.X  a.EXAMPLE,,-bad "

parses :
    parse_domains ascii_lower typed
    ≡ (text "a.example" ∷ text "b.c-d.org" ∷ text "*.x" ∷ text "-bad" ∷ [])
unfolding parse_domains split normalize_domain trim has same is_separator is_space text
parses = refl

adds :
    add_domains ascii_lower (text "a.example" ∷ []) typed
    ≡ ((text "a.example" ∷ text "b.c-d.org" ∷ text "*.x" ∷ [], text "-bad" ∷ []))
unfolding add_domains split normalize_domain trim has same is_separator is_space text
    is_valid_domain is_inner is_alnum
adds = refl

is_valid_domain_iff_example : (is_valid_domain (text "a.b") ≡ true) ↔ IsDomain (text "a.b")
is_valid_domain_iff_example = is_valid_domain_iff (text "a.b")

add_domains-news_example : add_domains ascii_lower [] typed ≡ (
  [] ++ news [] (valids (names_of ascii_lower (split typed))),
  invalids (names_of ascii_lower (split typed)),
)
add_domains-news_example = add_domains-news ascii_lower [] typed

abbrev used : List TagEvent
used =
    pasted typed
    ∷ committed
    ∷ removed (text "*.x")
    ∷ changed []
    ∷ backspaced
    ∷ changed (text "z.y")
    ∷ blurred
    ∷ []

abbrev blank : Tags
blank = record { value = []; pending = []; invalid = false }

tag_run-IsClean_example : IsClean (tag_run ascii_lower blank used).value
tag_run-IsClean_example = tag_run-IsClean ascii_lower blank used (tt, tt)

kept :
    tag_run ascii_lower blank used
    ≡ record { value = text "a.example" ∷ text "z.y" ∷ []; pending = []; invalid = false }
unfolding tag_run text trim is_space add_domains split is_separator normalize_domain is_valid_domain
    is_alnum is_inner has same
kept = refl
