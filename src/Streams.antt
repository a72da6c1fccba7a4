-- ===== src/Streams.antt =====
-- frontend/src/components/streams/lib.ts: the port fields of a stream.
pub mod Ports
pub mod Dialog
pub mod Sending
mod Tests
use megoo_pm.Prelude.{
  ℕ, Bool, true, false, ◌||◌, ◌&&◌, not, Option, none, some, all, ltb, if◌then◌else◌,
}
use megoo_pm.Text.{Text, trim, is_empty}
use megoo_pm.Number.{is_digit, value_from}

-- `/^\d+$/.test(s)`
unfoldable pub is_digits : Text → Bool
is_digits s = not (is_empty s) && all is_digit s

-- `Number.parseInt` of digits, which is an integer or `Infinity`, above every port.
unfoldable pub parse_port : Text → Option ℕ
unfolding is_digits
parse_port input =
    let trimmed = trim input in
    let n = value_from 0 trimmed in
    if not (is_digits trimmed) then none else if ltb n 1 || ltb 65535 n then none else some n
