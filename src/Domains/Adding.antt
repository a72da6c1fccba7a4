-- ===== src/Domains/Adding.antt =====
-- Committing text to a list of domain tags.
use megoo_pm.Prelude.{
  ◌≡◌, refl, ap, sym, true, false, not, List, [], ◌∷◌, ◌++◌, append_assoc, append-nil, arith,
  if◌then◌else◌, Bool-cases, inl, inr, filter, All, Fresh, Distinct, All-append, All-filter,
  All-filter_self, All-mono, Distinct-filter, Distinct-append,
}
use megoo_pm.Text.{Text, has, is_empty}
use megoo_pm.Text.Equality.{has-Fresh}
use megoo_pm.Domains.{split, normalize_domain, is_valid_domain, add_from, add_domains}
use megoo_pm.Domains.Grammar.{IsDomain, is_valid_domain_iff}
use megoo_pm.Domains.Parsing.{
  firsts, firsts-Distinct, news, news-old, news-new, names_of, names_of-blank, names_of-named,
}

news-nil : (known : List Text) → news known [] ≡ []
unfolding news firsts
news-nil known = refl

unfoldable pub valids : List Text → List Text
valids names = filter is_valid_domain names

unfoldable pub invalids : List Text → List Text
invalids names = filter (λ s. not (is_valid_domain s)) names

valids-good :
    (name : Text) (names : List Text)
    → is_valid_domain name ≡ true
    → (valids (name ∷ names) ≡ name ∷ valids names) × (invalids (name ∷ names) ≡ invalids names)
unfolding valids invalids
valids-good name names h = (rw h, rw h)

valids-bad :
    (name : Text) (names : List Text)
    → is_valid_domain name ≡ false
    → (valids (name ∷ names) ≡ valids names) × (invalids (name ∷ names) ≡ name ∷ invalids names)
unfolding valids invalids
valids-bad name names h = (rw h, rw h)

news-Distinct : (known names : List Text) → Distinct (news known names)
unfolding news
news-Distinct known names = Distinct-filter _ (firsts names) (firsts-Distinct names)

news-Fresh : (known names : List Text) → All (λ y. Fresh y known) (news known names)
unfolding news
news-Fresh known names =
    All-mono (λ y h. has-Fresh y known (ground arith)) _
      (All-filter_self (λ y. not (has y known)) (firsts names))

firsts-All : (P : Text → Type 0) (names : List Text) → All P names → All P (firsts names)
unfolding firsts
firsts-All P [] h = tt
firsts-All P (x ∷ xs) (p, h) = (p, All-filter P _ (firsts xs) (firsts-All P xs h))

news-IsDomain : (known names : List Text) → All IsDomain (news known (valids names))
unfolding news valids
news-IsDomain known names = All-filter IsDomain _ (firsts (filter is_valid_domain names)) (
    firsts-All IsDomain (filter is_valid_domain names)
      (All-mono (λ y. (is_valid_domain_iff y).0) _ (All-filter_self is_valid_domain names)))

-- What the loop does with one entry that is not empty.
add_named :
    (names next rejected : List Text) (name : Text)
    (out : List Text → List Text → List Text × List Text)
    → ((n r : List Text) → out n r ≡ (n ++ news n (valids names), r ++ invalids names))
    → (if not (is_valid_domain name)
        then out next (rejected ++ name ∷ [])
        else if not (has name next)
        then out (next ++ name ∷ []) rejected
        else out next rejected)
      ≡ (next ++ news next (valids (name ∷ names)), rejected ++ invalids (name ∷ names))
add_named names next rejected name out ih = elim (Bool-cases (is_valid_domain name)) [
  | inr bad ↦
      rw (bad, (valids-bad name names bad).0, (valids-bad name names bad).1, ih)
        (ap (λ v. (next ++ news next (valids names), v))
          (append_assoc rejected (name ∷ []) (invalids names)))
  | inl good ↦ elim (Bool-cases (has name next)) [
    | inl old ↦
        rw
          (
            good,
            old,
            (valids-good name names good).0,
            (valids-good name names good).1,
            news-old next (valids names) name old,
          )
          (ih next rejected)
    | inr fresh ↦
        rw
          (
            good,
            fresh,
            (valids-good name names good).0,
            (valids-good name names good).1,
            news-new next (valids names) name fresh,
          )
          (ih (next ++ name ∷ []) rejected)
  ]
]

module _ (lower : Text → Text) where
  add_from-news :
      (raws next rejected : List Text)
      → add_from lower raws next rejected ≡ (
        next ++ news next (valids (names_of lower raws)),
        rejected ++ invalids (names_of lower raws),
      )
  unfolding add_from
  add_from-news [] next rejected =
      unfold news firsts valids invalids names_of in
      λ i. (sym (append-nil next) i, sym (append-nil rejected) i)
  add_from-news (raw ∷ raws) next rejected =
      let name = normalize_domain lower raw in
      elim (Bool-cases (is_empty name)) [
        | inl blank ↦
            rw (blank, names_of-blank lower raw raws blank) (add_from-news raws next rejected)
        | inr named ↦
            rw (named, names_of-named lower raw raws named)
              (add_named (names_of lower raws) next rejected name (add_from lower raws)
                (add_from-news raws))
      ]

  -- Committing a text appends its valid entries that the list lacks, each once and in order, and
  -- hands back its invalid entries, in order: no entry is lost.
  pub add_domains-news :
      (existing : List Text) (input : Text)
      → add_domains lower existing input ≡ (
        existing ++ news existing (valids (names_of lower (split input))),
        invalids (names_of lower (split input)),
      )
  unfolding add_domains
  add_domains-news existing input = add_from-news (split input) existing []

  -- A list of distinct valid domains stays one, whatever text is committed to it.
  pub add_domains-IsDomain :
      (existing : List Text) (input : Text)
      → Distinct existing
      → All IsDomain existing
      → Distinct (add_domains lower existing input).0
        × All IsDomain (add_domains lower existing input).0
  add_domains-IsDomain existing input d v =
      let found = valids (names_of lower (split input)) in
      rw (add_domains-news existing input) (
        Distinct-append existing (news existing found) d (news-Distinct existing found)
            (news-Fresh existing found),
        All-append IsDomain existing (news existing found) v
            (news-IsDomain existing (names_of lower (split input))),
      )
