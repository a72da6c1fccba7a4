-- ===== src/Session/Cookies.antt =====
-- The cookie jar as a map: reading after writing and after deleting.
use megoo_pm.Prelude.{
  ◌≡◌, refl, ap, ◌∙◌, ◌≢◌, Bool, Option, none, some, [], ◌∷◌, ◌++◌, arith, length, drop, All,
  Bool-cases, inl, inr, if◌then◌else◌,
}
use megoo_pm.Text.{Text, same, starts_with}
use megoo_pm.Text.Equality.{same_iff}
use megoo_pm.Session.{Jar, put, remove, read_cookie, write_cookie, delete_cookie}

abbrev pub NoEquals : Text → Type 0
NoEquals = All (λ c. c ≢ b'=')

-- As a browser keeps it: a name ends at the first "=".
abbrev pub IsNamed : Jar → Type 0
IsNamed = All (λ cookie. NoEquals cookie.0)

starts_with-name :
    (n m v : Text)
    → NoEquals n
    → NoEquals m
    → starts_with (n ++ b'=' ∷ v) (m ++ b'=' ∷ []) ≡ same n m
unfolding starts_with same
starts_with-name [] [] v h k = refl
starts_with-name [] (d ∷ m) v h (k, ks) = ground arith
starts_with-name (c ∷ n) [] v (h, hs) k = ground arith
starts_with-name (c ∷ n) (d ∷ m) v (h, hs) (k, ks) = ground (arith, starts_with-name n m v hs ks)

drop-name : (m v : Text) → drop (length (m ++ b'=' ∷ [])) (m ++ b'=' ∷ v) ≡ v
drop-name [] v = refl
drop-name (d ∷ m) v = drop-name m v

module _ (decode : Text → Text) where
  -- The first cookie of that name, decoded.
  abbrev pub lookup : Text → Jar → Option Text
  lookup name [] = none
  lookup name ((n, v) ∷ jar) = if same n name then some (decode v) else lookup name jar

  pub read_cookie-lookup :
      (name : Text) (jar : Jar)
      → NoEquals name
      → IsNamed jar
      → read_cookie decode name jar ≡ lookup name jar
  unfolding read_cookie
  read_cookie-lookup name [] h k = refl
  read_cookie-lookup name ((n, v) ∷ jar) h (k, ks) = elim (Bool-cases (same n name)) [
    | inl e ↦
        rw (starts_with-name n name v k h, e)
          (ap (λ m. some (decode (drop (length (name ++ b'=' ∷ [])) (m ++ b'=' ∷ v))))
              ((same_iff n name).0 e)
            ∙ ap (λ w. some (decode w)) (drop-name name v))
    | inr e ↦ rw (starts_with-name n name v k h, e) (read_cookie-lookup name jar h ks)
  ]

  pub lookup-put :
      (name other value : Text) (jar : Jar)
      → lookup other (put name value jar)
        ≡ (if same name other then some (decode value) else lookup other jar)
  unfolding put
  lookup-put name other value [] = refl
  lookup-put name other value ((n, v) ∷ jar) = ground (
    arith,
    lookup-put name other value jar,
    same_iff n name,
    same_iff n other,
    same_iff name other,
  )

  pub lookup-remove :
      (name other : Text) (jar : Jar)
      → lookup other (remove name jar) ≡ (if same name other then none else lookup other jar)
  unfolding remove
  lookup-remove name other [] = ground arith
  lookup-remove name other ((n, v) ∷ jar) =
      ground (
        arith,
        lookup-remove name other jar,
        same_iff n name,
        same_iff n other,
        same_iff name other,
      )

put-IsNamed :
    (name value : Text) (jar : Jar) → NoEquals name → IsNamed jar → IsNamed (put name value jar)
unfolding put
put-IsNamed name value [] h k = (h, tt)
put-IsNamed name value ((n, v) ∷ jar) h (k, ks) = ground (arith, put-IsNamed name value jar h ks)

remove-IsNamed : (name : Text) (jar : Jar) → IsNamed jar → IsNamed (remove name jar)
unfolding remove
remove-IsNamed name [] k = tt
remove-IsNamed name ((n, v) ∷ jar) (k, ks) = ground (arith, remove-IsNamed name jar ks)

module _ (encode decode : Text → Text) where
  pub read_cookie-write :
      (https : Bool) (name other value : Text) (jar : Jar)
      → NoEquals name
      → NoEquals other
      → IsNamed jar
      → read_cookie decode other (write_cookie encode https name value jar)
        ≡ (if same name other then some (decode (encode value)) else read_cookie decode other jar)
  unfolding write_cookie
  read_cookie-write https name other value jar h k v =
      rw
        (
          read_cookie-lookup decode other (put name (encode value) jar) k
              (put-IsNamed name (encode value) jar h v),
          read_cookie-lookup decode other jar k v,
        )
        (lookup-put decode name other (encode value) jar)

pub write_cookie-IsNamed :
    (encode : Text → Text) (https : Bool) (name value : Text) (jar : Jar)
    → NoEquals name
    → IsNamed jar
    → IsNamed (write_cookie encode https name value jar)
unfolding write_cookie
write_cookie-IsNamed encode https name value jar h v = put-IsNamed name (encode value) jar h v

pub read_cookie-delete :
    (decode : Text → Text) (name other : Text) (jar : Jar)
    → NoEquals other
    → IsNamed jar
    → read_cookie decode other (delete_cookie name jar)
      ≡ (if same name other then none else read_cookie decode other jar)
unfolding delete_cookie
read_cookie-delete decode name other jar k v =
    rw
      (
        read_cookie-lookup decode other (remove name jar) k (remove-IsNamed name jar v),
        read_cookie-lookup decode other jar k v,
      )
      (lookup-remove decode name other jar)

pub delete_cookie-IsNamed :
    (name : Text) (jar : Jar) → IsNamed jar → IsNamed (delete_cookie name jar)
unfolding delete_cookie
delete_cookie-IsNamed name jar v = remove-IsNamed name jar v
