-- ===== src/Domains/Parsing.antt =====
-- The tag input's loops against the list operations that they stand for.
use megoo_pm.Prelude.{
  ◌≡◌, refl, ap, sym, ◌∙◌, true, false, not, ◌&&◌, ◌||◌, List, [], ◌∷◌, ◌++◌, map, append_assoc,
  append-nil, arith, Bool-cases, inl, inr, filter, filter-filter, filter_congr, Distinct,
  All-filter_self, All-mono, Distinct-filter, filter-All, All-of,
}
use megoo_pm.Text.{Text, same, has, is_empty}
use megoo_pm.Text.Equality.{same_iff}
use megoo_pm.Domains.{split, normalize_domain, parse_from, parse_domains}

-- The first occurrence of each text.
unfoldable pub firsts : List Text → List Text
firsts [] = []
firsts (x ∷ xs) = x ∷ filter (λ y. not (same y x)) (firsts xs)

pub firsts-Distinct : (xs : List Text) → Distinct (firsts xs)
unfolding firsts
firsts-Distinct [] = tt
firsts-Distinct (x ∷ xs) = (
  All-mono (λ y h e. ground (arith, same_iff y x)) _
      (All-filter_self (λ y. not (same y x)) (firsts xs)),
  Distinct-filter (λ y. not (same y x)) (firsts xs) (firsts-Distinct xs),
)

-- The texts of `names` that are not in `known`, each once.
unfoldable pub news : List Text → List Text → List Text
news known names = filter (λ y. not (has y known)) (firsts names)

has-snoc : (y x : Text) (known : List Text) → has y (known ++ x ∷ []) ≡ (has y known || same y x)
unfolding has
has-snoc y x [] = ground arith
has-snoc y x (k ∷ known) = ground (arith, has-snoc y x known)

pub news-old :
    (known names : List Text) (x : Text)
    → has x known ≡ true
    → news known (x ∷ names) ≡ news known names
unfolding news firsts
news-old known names x h = rw h (
    filter-filter (λ y. not (has y known)) (λ y. not (same y x)) (firsts names)
    ∙ filter_congr _ _ (firsts names) (λ y. ground (arith, same_iff y x)))

pub news-new :
    (known names : List Text) (x : Text)
    → has x known ≡ false
    → known ++ news known (x ∷ names) ≡ (known ++ x ∷ []) ++ news (known ++ x ∷ []) names
unfolding news firsts
news-new known names x h =
    let later =
      filter-filter (λ y. not (has y known)) (λ y. not (same y x)) (firsts names)
      ∙ filter_congr (λ y. not (same y x) && not (has y known)) (λ y. not (has y (known ++ x ∷ [])))
          (firsts names) (λ y. ground (arith, has-snoc y x known)) in
    rw h (
      ap (λ v. known ++ x ∷ v) later
      ∙ sym (append_assoc known (x ∷ []) (news (known ++ x ∷ []) names)))

news-none : (names : List Text) → news [] names ≡ firsts names
unfolding news has
news-none names = filter-All _ (firsts names) (All-of _ (λ y. refl) (firsts names))

module _ (lower : Text → Text) where
  -- The entries that a text holds: split, normalised, and without the empty ones.
  unfoldable pub names_of : List Text → List Text
  names_of raws = filter (λ s. not (is_empty s)) (map (normalize_domain lower) raws)

  pub names_of-blank :
      (raw : Text) (raws : List Text)
      → is_empty (normalize_domain lower raw) ≡ true
      → names_of (raw ∷ raws) ≡ names_of raws
  unfolding names_of
  names_of-blank raw raws h = rw h

  pub names_of-named :
      (raw : Text) (raws : List Text)
      → is_empty (normalize_domain lower raw) ≡ false
      → names_of (raw ∷ raws) ≡ normalize_domain lower raw ∷ names_of raws
  unfolding names_of
  names_of-named raw raws h = rw h

  parse_from-news :
      (raws result : List Text)
      → parse_from lower raws result result ≡ result ++ news result (names_of raws)
  unfolding parse_from
  parse_from-news [] result = unfold news names_of firsts in sym (append-nil result)
  parse_from-news (raw ∷ raws) result =
      let name = normalize_domain lower raw in
      let rest = names_of raws in
      elim (Bool-cases (is_empty name)) [
        | inl blank ↦ rw (blank, names_of-blank raw raws blank) (parse_from-news raws result)
        | inr named ↦ elim (Bool-cases (has name result)) [
          | inl old ↦
              rw (named, old, names_of-named raw raws named, news-old result rest name old)
                (parse_from-news raws result)
          | inr fresh ↦
              rw (named, fresh, names_of-named raw raws named, news-new result rest name fresh)
                (parse_from-news raws (result ++ name ∷ []))
        ]
      ]

  -- Parsing gives the first occurrence of each entry of the text, in order.
  pub parse_domains-firsts :
      (input : Text) → parse_domains lower input ≡ firsts (names_of (split input))
  unfolding parse_domains
  parse_domains-firsts input = parse_from-news (split input) [] ∙ news-none (names_of (split input))
