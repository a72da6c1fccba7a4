-- ===== src/Domains.antt =====
-- frontend/src/components/domains/lib.ts: the tag input behind every "domain names" field.
-- `lower` stands for `toLowerCase`, whose tables are Unicode's.
pub mod Grammar
pub mod Parsing
pub mod Adding
pub mod Tags
mod Tests
use megoo_pm.Prelude.{
  ℕ, Bool, true, false, not, ◌&&◌, ◌||◌, List, [], ◌∷◌, ◌++◌, leb, ◌==◌, if◌then◌else◌,
}
use megoo_pm.Text.{Text, same, has, is_empty, is_space, trim}
use megoo_pm.Regex.{Regex, eps, cls, seq, star, upto, chr, opt, test}

-- `[a-z0-9]` and `[a-z0-9-]`
unfoldable pub is_alnum : ℕ → Bool
is_alnum c = (leb b'a' c && leb c b'z') || (leb b'0' c && leb c b'9')

unfoldable pub is_inner : ℕ → Bool
is_inner c = is_alnum c || c == b'-'

-- `[a-z0-9](?:[a-z0-9-]{0,61}[a-z0-9])?`
abbrev pub label_re : Regex
label_re = seq (cls is_alnum) (opt (seq (upto 61 (cls is_inner)) (cls is_alnum)))

-- `^(?:\*\.)?(?:LABEL\.)*LABEL$`
abbrev pub domain_re : Regex
domain_re = seq (opt (seq (chr b'*') (chr b'.'))) (seq (star (seq label_re (chr b'.'))) label_re)

unfoldable pub is_valid_domain : Text → Bool
unfolding test
is_valid_domain name = test domain_re name

-- `[\s,]`
unfoldable pub is_separator : ℕ → Bool
is_separator c = is_space c || c == b','

abbrev onto_first : ℕ → List Text → List Text
onto_first c [] = (c ∷ []) ∷ []
onto_first c (piece ∷ pieces) = (c ∷ piece) ∷ pieces

-- `text.split(/[\s,]+/)`; the flag says that the unit before was a separator
split_from : Bool → Text → List Text
split_from run [] = [] ∷ []
split_from run (c ∷ s) =
    let rest = split_from (is_separator c) s in
    if is_separator c then (if run then rest else [] ∷ rest) else onto_first c rest

unfoldable pub split : Text → List Text
unfolding split_from
split s = split_from false s

module _ (lower : Text → Text) where
  unfoldable pub normalize_domain : Text → Text
  normalize_domain raw = lower (trim raw)

  -- the loop of `parseDomains` over `seen` and `result`
  parse_from : List Text → List Text → List Text → List Text
  parse_from [] seen result = result
  parse_from (raw ∷ raws) seen result =
      let name = normalize_domain raw in
      let again = parse_from raws seen result in
      let added = parse_from raws (seen ++ name ∷ []) (result ++ name ∷ []) in
      if not (is_empty name) && not (has name seen) then added else again

  unfoldable pub parse_domains : Text → List Text
  unfolding parse_from
  parse_domains input = parse_from (split input) [] []

  -- the loop of `addDomains` over `next` and `rejected`
  add_from : List Text → List Text → List Text → List Text × List Text
  add_from [] next rejected = (next, rejected)
  add_from (raw ∷ raws) next rejected =
      let name = normalize_domain raw in
      let skipped = add_from raws next rejected in
      let refused = add_from raws next (rejected ++ name ∷ []) in
      let added = add_from raws (next ++ name ∷ []) rejected in
      if is_empty name
      then skipped
      else if not (is_valid_domain name)
      then refused
      else if not (has name next)
      then added
      else skipped

  unfoldable pub add_domains : List Text → Text → List Text × List Text
  unfolding add_from
  add_domains existing input = add_from (split input) existing []
