-- ===== src/Events/Tests.antt =====
-- Tests and examples for the event stream.
use megoo_pm.Prelude.{◌≡◌, refl, true, false, Option, none, some, List, [], ◌∷◌, ◌++◌, map}
use megoo_pm.Text.{Text, text, starts_with}
use megoo_pm.Events.{
  cut, lines_of, types_of_lines, frames_loop, parse_frames, Subscription, reading, over, connected,
  chunk, happen, history,
}
use megoo_pm.Events.Chunks.{joined, kept, chunks-whole}
use megoo_pm.Events.Waits.{due, unsubscribed-silent}

-- Data that are the type itself, unless empty.
abbrev plain : Text → Option Text
plain [] = none
plain (c ∷ s) = some (c ∷ s)

abbrev newline : Text
newline = 10 ∷ []

abbrev stream : List Text
stream =
    (text "data: a" ++ newline)
    ∷ (newline ++ text ": keepalive" ++ newline ++ newline ++ text "da")
    ∷ (text "ta: b" ++ newline ++ newline ++ text "data: c")
    ∷ []

two_frames : parse_frames plain (joined stream) ≡ (text "a" ∷ text "b" ∷ [], text "data: c")
unfolding parse_frames frames_loop cut lines_of types_of_lines starts_with text
two_frames = refl

abbrev listening : Subscription
listening = record {
  phase = reading;
  stopped = false;
  attempt = 0;
  buffer = [];
  seen = [];
  openings = 1;
}

chunks-whole_example :
    let t : Subscription = history plain listening (map kept stream) in
    let whole : List Text × Text = parse_frames plain (joined stream) in
    (t.seen ≡ [] ++ whole.0) × (t.buffer ≡ whole.1)
chunks-whole_example = chunks-whole plain stream [] 0 1

-- Both types of the chunk are seen, though a callback for one of them unsubscribes.
abbrev two_types : Text
two_types = text "data: a" ++ newline ++ newline ++ text "data: b" ++ newline ++ newline

unsubscribed-silent_example :
    let t : Subscription =
      history plain listening (chunk two_types true ∷ connected ∷ chunk two_types false ∷ []) in
    (t.seen ≡ text "a" ∷ text "b" ∷ [])
    × (t.openings ≡ 1)
    × ((happen plain t (due t.phase)).phase ≡ over)
unfolding parse_frames text cut types_of_lines lines_of starts_with
unsubscribed-silent_example =
    unsubscribed-silent plain listening (chunk two_types true) (text "a" ∷ text "b" ∷ [])
      (connected ∷ chunk two_types false ∷ []) (refl, refl, refl, refl)
