-- ===== src/Events.antt =====
-- frontend/src/lib/events.ts: the frames of the event stream, and the subscription that reads it.
-- `JSON.parse` and the `TextDecoder` are the platform's: `type_of` gives the truthy `type` of a text
-- that parses, and a chunk is what the decoder gives for it.
pub mod Frames
pub mod Chunks
pub mod Waits
mod Tests
use megoo_pm.Prelude.{
  ℕ, zero, suc, ◌+◌, ◌*◌, ◌^◌, min, Bool, true, false, ◌&&◌, Option, none, some, List, [], ◌∷◌,
  ◌++◌, length, drop, ◌==◌, if◌then◌else◌,
}
use megoo_pm.Text.{Text, text, starts_with}

abbrev pub first_retry_ms : ℕ
first_retry_ms = 1000

abbrev pub max_retry_ms : ℕ
max_retry_ms = 30000

unfoldable pub backoff_for : ℕ → ℕ
backoff_for attempt = min (first_retry_ms * 2 ^ attempt) max_retry_ms

abbrev pub onto_frame : ℕ → Option (Text × Text) → Option (Text × Text)
onto_frame c none = none
onto_frame c (some (frame, rest)) = some (c ∷ frame, rest)

-- `indexOf("\n\n")`, with the parts before and after it.
unfoldable pub cut : Text → Option (Text × Text)
cut [] = none
cut (c ∷ []) = none
cut (c ∷ d ∷ s) =
    let later = onto_frame c (cut (d ∷ s)) in if c == 10 && d == 10 then some ([], s) else later

abbrev onto_line : ℕ → List Text → List Text
onto_line c [] = (c ∷ []) ∷ []
onto_line c (l ∷ ls) = (c ∷ l) ∷ ls

-- `frame.split("\n")`
unfoldable pub lines_of : Text → List Text
lines_of [] = [] ∷ []
lines_of (c ∷ s) = let later = lines_of s in if c == 10 then [] ∷ later else onto_line c later

module _ (type_of : Text → Option Text) where
  abbrev pub pushed : Option Text → List Text
  pushed none = []
  pushed (some t) = t ∷ []

  unfoldable pub types_of_lines : List Text → List Text
  types_of_lines [] = []
  types_of_lines (l ∷ ls) =
      if starts_with l (text "data: ")
      then pushed (type_of (drop 6 l)) ++ types_of_lines ls
      else types_of_lines ls

  abbrev pub after : Text → List Text × Text → List Text × Text
  after frame (types, rest) = (types_of_lines (lines_of frame) ++ types, rest)

  abbrev pub and_on : (Text → List Text × Text) → Text → Option (Text × Text) → List Text × Text
  and_on loop buffer none = ([], buffer)
  and_on loop buffer (some (frame, rest)) = after frame (loop rest)

  -- The loop: each turn shortens the text, so as much fuel as the text is long is enough.
  pub frames_loop : ℕ → Text → List Text × Text
  frames_loop zero buffer = ([], buffer)
  frames_loop (suc fuel) buffer = and_on (frames_loop fuel) buffer (cut buffer)

  unfoldable pub parse_frames : Text → List Text × Text
  unfolding frames_loop
  parse_frames buffer = frames_loop (length buffer) buffer

-- What the subscription does: it opens the stream, reads it, or waits to open it again.
pub data Phase : Type 0 where
  opening reading : Phase
  retrying : ℕ → Phase
  over : Phase

-- `openings` counts the turns of the loop, and `seen` is what `onEvent` got.
pub record Subscription : Type 0 where
  pub phase : Phase
  pub stopped : Bool
  pub attempt : ℕ
  pub buffer : Text
  pub seen : List Text
  pub openings : ℕ

abbrev pub subscribed : Subscription
subscribed = record {
  phase = opening;
  stopped = false;
  attempt = 0;
  buffer = [];
  seen = [];
  openings = 1;
}

-- `lost` is the end of the stream or anything that is thrown, an abort also. The flag of a chunk
-- says whether a call of `onEvent` for one of its types unsubscribes; none of them throws.
pub data Happening : Type 0 where
  connected lost timer_due unsubscribed : Happening
  chunk : Text → Bool → Happening

-- The end of a turn of the loop
unfoldable pub retry : Subscription → Subscription
unfolding backoff_for
retry s =
    if s.stopped
    then record s { phase = over }
    else record s { phase = retrying (backoff_for s.attempt); attempt = min (s.attempt + 1) 5 }

abbrev pub has_any : List Text → Bool
has_any [] = false
has_any (t ∷ ts) = true

module _ (type_of : Text → Option Text) where
  -- Every type of the chunk is given to `onEvent`, also after one that unsubscribes.
  unfoldable pub read : Text → Bool → Subscription → Subscription
  unfolding parse_frames
  read value leaves s =
      let found = parse_frames type_of (s.buffer ++ value) in
      record s {
        buffer = found.1;
        seen = s.seen ++ found.0;
        stopped = if leaves && has_any found.0 then true else s.stopped;
      }

  abbrev pub at_phase : Phase → Happening → Subscription → Subscription
  at_phase _ unsubscribed s = record s { stopped = true }
  at_phase opening connected s = record s { phase = reading; attempt = 0; buffer = [] }
  at_phase opening lost s = retry s
  at_phase reading (chunk value leaves) s =
      if s.stopped then record s { phase = over } else read value leaves s
  at_phase reading lost s = retry s
  at_phase (retrying ms) timer_due s =
      if s.stopped
      then record s { phase = over }
      else record s { phase = opening; openings = s.openings + 1 }
  at_phase _ _ s = s

  unfoldable pub happen : Subscription → Happening → Subscription
  happen s h = at_phase s.phase h s

  unfoldable pub history : Subscription → List Happening → Subscription
  unfolding happen
  history s [] = s
  history s (h ∷ hs) = history (happen s h) hs
