-- ===== src/NginxStatus/Tests.antt =====
-- A failed test of the configuration.
use megoo_pm.CustomPages.Uris.{span, plus_run, strip}
use megoo_pm.Prelude.{◌≡◌, refl, none, some}
use megoo_pm.Text.{text}
use megoo_pm.NginxStatus.{file_at, culprit_of}

found :
    (culprit_of (text "[emerg] in megoopm-default-tls-7.conf:3")
      ≡ some (record {
        label = text "The default TLS site for certificate #7";
        href = text "/certificates";
      }))
    × (culprit_of (text "[emerg] in megoopm-proxy-.conf") ≡ none)
unfolding culprit_of text file_at strip plus_run span
found = (refl, refl)
