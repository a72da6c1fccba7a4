-- ===== src/NginxStatus/Culprits.antt =====
-- What is found of a message that names one file.
use megoo_pm.Prelude.{ℕ, ◌≡◌, none, [], ◌∷◌, ◌++◌}
use megoo_pm.Text.{Text, text}
use megoo_pm.Number.{number_text}
use megoo_pm.NginxStatus.{Kind, kind_text, file_at}

-- The file that the engine writes for an object.
abbrev pub conf_file : Kind → ℕ → Text
conf_file kind id =
    text "megoopm-" ++ (kind_text kind ++ (text "-" ++ (number_text id ++ text ".conf")))

-- No file is named before a place.
unfoldable pub Unnamed : Text → Text → Type 0
Unnamed [] s = Unit
Unnamed (c ∷ before) s = (file_at (c ∷ (before ++ s)) ≡ none) × Unnamed before s
