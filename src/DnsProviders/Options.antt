-- ===== src/DnsProviders/Options.antt =====
-- What is sent of the options, and that a form without a secret sends none.
use megoo_pm.Prelude.{
  ◌≡◌, refl, ap, ◌∙◌, inl, inr, Bool, true, false, Bool-cases, ◌&&◌, ◌||◌, not, Option, none, some,
  List, [], ◌∷◌, any, any-eq-false, All, All-mono, if◌then◌else◌, arith,
}
use megoo_pm.Text.{Text, same, is_empty}
use megoo_pm.Text.Equality.{same→eq, same_refl}
use megoo_pm.Entries.{lookup, put, lookup-put}
use megoo_pm.DnsProviders.{Field, typed_value, add_options, build_options_payload, missing_secret}

-- The value that is sent for a name: what is typed, unless it is blank.
abbrev pub sent_value : List (Text × Text) → Text → Option Text
sent_value values k = if is_empty (typed_value values k) then none else some (typed_value values k)

abbrev pub is_named : Text → Field → Bool
is_named k f = same k f.name

abbrev or_before : Option Text → Option Text → Option Text
or_before none old = old
or_before (some v) old = some v

add_one :
    (values payload : List (Text × Text)) (f : Field) (k : Text)
    → lookup k (
        if is_empty (typed_value values f.name)
        then payload
        else put f.name (typed_value values f.name) payload)
      ≡ (if same k f.name
          then or_before (sent_value values k) (lookup k payload)
          else lookup k payload)
add_one values payload f k = elim (Bool-cases (same k f.name)) [
  | inl here ↦
      rw (here, same→eq k f.name here)
        (elim (Bool-cases (is_empty (typed_value values f.name))) [
          | inl blank ↦ rw blank refl
          | inr given ↦ rw given (
              lookup-put f.name f.name (typed_value values f.name) payload
              ∙ rw (same_refl f.name) refl)
        ])
  | inr other ↦ rw other (elim (Bool-cases (is_empty (typed_value values f.name))) [
    | inl blank ↦ rw blank refl
    | inr given ↦ rw given (lookup-put k f.name (typed_value values f.name) payload ∙ rw other refl)
  ])
]

twice :
    (a b : Bool) (v o : Option Text)
    → (if a then or_before v (if b then or_before v o else o) else (if b then or_before v o else o))
      ≡ (if b || a then or_before v o else o)
twice true true none o = refl
twice true true (some v) o = refl
twice true false v o = refl
twice false true v o = refl
twice false false v o = refl

add_options-lookup :
    (values : List (Text × Text)) (fields : List Field) (payload : List (Text × Text)) (k : Text)
    → lookup k (add_options values fields payload) ≡ (
        if any (is_named k) fields
        then or_before (sent_value values k) (lookup k payload)
        else lookup k payload)
unfolding add_options
add_options-lookup values [] payload k = refl
add_options-lookup values (f ∷ fs) payload k =
    add_options-lookup values fs
      (if is_empty (typed_value values f.name)
        then payload
        else put f.name (typed_value values f.name) payload)
      k
    ∙ ap (λ o. if any (is_named k) fs then or_before (sent_value values k) o else o)
        (add_one values payload f k)
    ∙ twice (any (is_named k) fs) (same k f.name) (sent_value values k) (lookup k payload)

sent_only :
    (values : List (Text × Text)) (fields : List Field) (k : Text)
    → lookup k (build_options_payload fields values)
      ≡ (if any (is_named k) fields then sent_value values k else none)
unfolding build_options_payload lookup
sent_only values fields k =
    add_options-lookup values fields [] k ∙ go (any (is_named k) fields) (sent_value values k)
  where
    go :
        (b : Bool) (v : Option Text)
        → (if b then or_before v none else none) ≡ (if b then v else none)
    go true none = refl
    go true (some v) = refl
    go false v = refl

unsent :
    (values : List (Text × Text)) (fields : List Field) (k : Text)
    → is_empty (typed_value values k) ≡ true
    → lookup k (build_options_payload fields values) ≡ none
unsent values fields k blank =
    sent_only values fields k ∙ go (any (is_named k) fields) (sent_value values k) (rw blank refl)
  where
    go : (b : Bool) (v : Option Text) → v ≡ none → (if b then v else none) ≡ none
    go true v h = h
    go false v h = refl

-- The payload has of each name the value that is typed for a field of that name, trimmed, unless it
-- is blank, and nothing else; and where a secret is reported missing it has no secret field.
pub build_options_payload-lookup :
    (fields : List Field) (values : List (Text × Text))
    → ((k : Text)
        → lookup k (build_options_payload fields values)
          ≡ (if any (is_named k) fields then sent_value values k else none))
      × (missing_secret fields values ≡ true
          → All
              (λ f. f.secret ≡ true → lookup f.name (build_options_payload fields values) ≡ none)
              fields)
unfolding missing_secret
build_options_payload-lookup fields values = (
  sent_only values fields,
  λ missing.
      All-mono
        {Q = λ f. f.secret ≡ true → lookup f.name (build_options_payload fields values) ≡ none}
        (λ f h secret.
          unsent values fields f.name
            (blank_of f.secret (is_empty (typed_value values f.name)) h secret))
        fields
        (any-eq-false (λ f. f.secret && not (is_empty (typed_value values f.name))) fields
          (negated _ missing)),
)
  where
    negated : (b : Bool) → not b ≡ true → b ≡ false
    negated true h = absurd (ground arith)
    negated false h = refl

    blank_of : (secret blank : Bool) → (secret && not blank) ≡ false → secret ≡ true → blank ≡ true
    blank_of secret true h k = refl
    blank_of true false h k = absurd (ground arith)
    blank_of false false h k = absurd (ground arith)
