-- ===== src/Text/Ascii.antt =====
-- A folding of the ASCII letters: a concrete `toLowerCase` for the tests.
use megoo_pm.Prelude.{◌+◌, ◌&&◌, map, leb, if◌then◌else◌}
use megoo_pm.Text.{Text}

abbrev pub ascii_lower : Text → Text
ascii_lower s = map (λ c. if leb b'A' c && leb c b'Z' then c + 32 else c) s
