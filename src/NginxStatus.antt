-- ===== src/NginxStatus.antt =====
-- frontend/src/components/nginx-status/lib.ts: the object that an nginx error names.
pub mod Culprits
mod Tests
use megoo_pm.Prelude.{
  ℕ, zero, suc, Bool, true, false, Option, none, some, List, [], ◌∷◌, ◌++◌, if◌then◌else◌,
}
use megoo_pm.Text.{Text, text}
use megoo_pm.Number.{is_digit}
use megoo_pm.CustomPages.Uris.{strip, plus_run, ◌>>=◌}

pub record Culprit : Type 0 where
  pub label : Text
  pub href : Text

pub data Kind : Type 0 where
  proxy redirect dead upstream stream default_tls : Kind

abbrev pub kind_text : Kind → Text
kind_text proxy = text "proxy"
kind_text redirect = text "redirect"
kind_text dead = text "dead"
kind_text upstream = text "upstream"
kind_text stream = text "stream"
kind_text default_tls = text "default-tls"

-- `-(\d+)\.conf`, and what follows it
unfoldable pub id_at : Text → Option Text
id_at s = do
  r ← strip (text "-") s
  (id, rest) ← plus_run is_digit r
  _ ← strip (text ".conf") rest
  some id

abbrev pub either : {A : Type 0} → Option A → Option A → Option A
either none o = o
either (some a) o = some a

unfoldable pub kind_at : Kind → Text → Option (Kind × Text)
unfolding id_at
kind_at kind s = do r ← strip (kind_text kind) s; id ← id_at r; some (kind, id)

-- `megoopm-(proxy|redirect|dead|upstream|stream|default-tls)-(\d+)\.conf` at a place
unfoldable pub file_at : Text → Option (Kind × Text)
unfolding kind_at
file_at s = do
  r ← strip (text "megoopm-") s
  either (kind_at proxy r) (
      either (kind_at redirect r) (
        either (kind_at dead r)
          (either (kind_at upstream r) (either (kind_at stream r) (kind_at default_tls r)))))

-- `exec`: the first place that matches
unfoldable pub find_file : Text → Option (Kind × Text)
find_file [] = none
find_file (c ∷ s) = either (file_at (c ∷ s)) (find_file s)

abbrev pub culprit : Kind → Text → Culprit
culprit proxy id = record { label = text "Proxy host #" ++ id; href = text "/proxy-hosts" }
culprit redirect id = record {
  label = text "Redirection host #" ++ id;
  href = text "/redirection-hosts";
}
culprit dead id = record { label = text "404 host #" ++ id; href = text "/dead-hosts" }
culprit upstream id = record { label = text "Upstream pool #" ++ id; href = text "/upstreams" }
culprit stream id = record { label = text "Stream #" ++ id; href = text "/streams" }
culprit default_tls id = record {
  label = text "The default TLS site for certificate #" ++ id;
  href = text "/certificates";
}

abbrev culprit_of_file : Option (Kind × Text) → Option Culprit
culprit_of_file none = none
culprit_of_file (some (kind, id)) = some (culprit kind id)

unfoldable pub culprit_of : Text → Option Culprit
unfolding find_file
culprit_of output = culprit_of_file (find_file output)
