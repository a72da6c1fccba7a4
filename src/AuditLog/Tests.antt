-- ===== src/AuditLog/Tests.antt =====
-- Tests and examples for the audit log's lines.
use megoo_pm.Prelude.{◌≡◌, refl, some}
use megoo_pm.Text.{text, same}
use megoo_pm.Number.{number_text}
use megoo_pm.Json.{str, arr, obj, nil, cons, Fields, end, entry}
use megoo_pm.AuditLog.{
  describe_object, comma_joined, render_value, render_change, change_parts, part_of, parts_of,
  summarise, action_tone, destructive,
}

abbrev renamed : Fields
renamed =
    entry (text "changes")
      (obj (entry (text "name") (arr (cons (str (text "a")) (cons (str (text "b")) nil))) end))
      (entry (text "hosts") (arr (cons (str (text "x")) (cons (str (text "y")) nil))) end)

arrow : summarise renamed ≡ text "name: a → b, hosts: x, y"
unfolding summarise parts_of part_of change_parts render_change render_value comma_joined text same
arrow = refl

deletes : action_tone (text "delete") ≡ destructive
unfolding action_tone text same
deletes = refl

pool_seven : describe_object (λ s. s) (text "dead_host") (some 7) ≡ text "dead host #7"
unfolding describe_object text number_text
pool_seven = refl
