-- ===== src/Regex.antt =====
-- The regular expressions of the client's literals, and `r.test(s)` of an anchored one, `/^…$/`, by
-- derivatives. A character class is a test on code units.
pub mod Language
pub mod Decides
pub mod Repeats
use megoo_pm.Prelude.{ℕ, zero, suc, Bool, true, false, ◌&&◌, ◌||◌, [], ◌∷◌, ◌==◌, if◌then◌else◌}
use megoo_pm.Text.{Text}

pub data Regex : Type 0 where
  never : Regex
  eps : Regex
  cls : (ℕ → Bool) → Regex
  seq : Regex → Regex → Regex
  alt : Regex → Regex → Regex
  star : Regex → Regex
  upto : ℕ → Regex → Regex

-- `c`, `r?` and `r+`
abbrev pub chr : ℕ → Regex
chr c = cls (λ d. d == c)

abbrev pub opt : Regex → Regex
opt r = upto 1 r

abbrev pub plus : Regex → Regex
plus r = seq r (star r)

pub nullable : Regex → Bool
nullable never = false
nullable eps = true
nullable (cls p) = false
nullable (seq r q) = nullable r && nullable q
nullable (alt r q) = nullable r || nullable q
nullable (star r) = true
nullable (upto n r) = true

-- These keep a derivative small.
pub join : Regex → Regex → Regex
join never q = never
join eps q = q
join r q = seq r q

abbrev pub is_never : Regex → Bool
is_never never = true
is_never _ = false

pub either : Regex → Regex → Regex
either r q = if is_never r then q else if is_never q then r else alt r q

pub deriv : ℕ → Regex → Regex
unfolding join either nullable
deriv c never = never
deriv c eps = never
deriv c (cls p) = if p c then eps else never
deriv c (seq r q) =
    either (join (deriv c r) q) (let later = deriv c q in if nullable r then later else never)
deriv c (alt r q) = either (deriv c r) (deriv c q)
deriv c (star r) = join (deriv c r) (star r)
deriv c (upto zero r) = never
deriv c (upto (suc n) r) = join (deriv c r) (upto n r)

unfoldable pub test : Regex → Text → Bool
unfolding nullable deriv
test r [] = nullable r
test r (c ∷ s) = test (deriv c r) s
