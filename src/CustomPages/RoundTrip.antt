-- ===== src/CustomPages/RoundTrip.antt =====
-- `restoreImages` after `elideImages`: the numbered images are put back one after another.
use megoo_pm.Prelude.{
  ℕ, suc, ◌+◌, ◌-◌, ◌<◌, ◌≡◌, refl, sym, ap, subst, ◌∙◌, false, some, List, [], ◌∷◌, ◌++◌,
  append_assoc, append-nil, length, length-append, get_elem?, any_of_All, All, All-append, All-mono,
  ltb, ◌==◌, arith,
}
use megoo_pm.Text.{Text}
use megoo_pm.Number.{number_text}
use megoo_pm.Number.Decimal.{value_from-number_text}
use megoo_pm.CustomPages.Uris.{Hit, match_uri, Piece, lit, hit, scan}
use megoo_pm.CustomPages.Images.{
  uri_text, images_of, elided_from, elide_images, Restoring, image_at, add_seen, restore_pieces,
  restore_piece, report, restore_images,
}
use megoo_pm.CustomPages.Pieces.{flat, scan-Scanned}
use megoo_pm.CustomPages.Numbering.{numbered, scan-elided}

image_at-append :
    (before after : List Text) (x : Text)
    → image_at (before ++ x ∷ after) (length before + 1) ≡ some x
image_at-append before after x = rw (at_next (length before)) (go before)
  where
    at_next : (n : ℕ) → n + 1 ≡ suc n
    at_next n = omega arith

    go : (front : List Text) → get_elem? (front ++ x ∷ after) (length front) ≡ some x
    go [] = refl
    go (y ∷ front) = go front

add_seen-new : (k : ℕ) (seen : List ℕ) → All (λ m. m < k) seen → add_seen k seen ≡ seen ++ k ∷ []
add_seen-new k seen h =
    let fresh =
      any_of_All (λ m. m == k) seen
        (All-mono {Q = λ m. (m == k) ≡ false} (λ m l. ground arith) seen h) in
    rw fresh refl

-- What the replacement leaves behind, the images from `k` on to go.
record Restored (k : ℕ) (ps : List Piece) (r out : Restoring) : Type 0 where
  done_all : out.done ≡ r.done ++ flat ps
  known : out.unknown ≡ r.unknown
  counted : length out.seen ≡ length r.seen + length (images_of ps)

put_back-some :
    (images : List Text) (h : Hit) (k : ℕ) (x : Text) (r : Restoring)
    → image_at images k ≡ some x
    → All (λ m. m < k) r.seen
    → restore_piece images (hit (record h { body = number_text k })) r
      ≡ record r { done = r.done ++ x; seen = r.seen ++ k ∷ [] }
unfolding restore_piece
put_back-some images h k x r e new =
    rw (value_from-number_text k, e, add_seen-new k r.seen new) refl

Restored-nil : (k : ℕ) (r : Restoring) → Restored k [] r r
unfolding flat images_of
Restored-nil k r = record {
  done_all = sym (append-nil r.done);
  known = refl;
  counted = omega arith;
}

Restored-lit :
    (k c : ℕ) (ps : List Piece) (r out : Restoring)
    → Restored k ps (record r { done = r.done ++ c ∷ [] }) out
    → Restored k (lit c ∷ ps) r out
unfolding flat images_of
Restored-lit k c ps r out h = record {
  done_all = h.done_all ∙ append_assoc r.done (c ∷ []) (flat ps);
  known = h.known;
  counted = h.counted;
}

Restored-hit :
    (k : ℕ) (h : Hit) (ps : List Piece) (r out : Restoring)
    → Restored (k + 1) ps (record r { done = r.done ++ uri_text h; seen = r.seen ++ k ∷ [] }) out
    → Restored k (hit h ∷ ps) r out
unfolding flat images_of
Restored-hit k h ps r out rest =
    let sized = length-append r.seen (k ∷ []) in
    let counted = rest.counted in
    record {
      done_all = rest.done_all ∙ append_assoc r.done (uri_text h) (flat ps);
      known = rest.known;
      counted = omega arith;
    }

restore-lit :
    (images : List Text) (c : ℕ) (r : Restoring)
    → restore_piece images (lit c) r ≡ record r { done = r.done ++ c ∷ [] }
unfolding restore_piece
restore-lit images c r = refl

restore_pieces-numbered :
    (images before : List Text) (k : ℕ) (ps : List Piece) (r : Restoring)
    → images ≡ before ++ images_of ps
    → k ≡ length before + 1
    → All (λ m. m < k) r.seen
    → Restored k ps r (restore_pieces images (numbered k ps) r)
unfolding restore_pieces numbered images_of
restore_pieces-numbered images before k [] r e n new = Restored-nil k r
restore_pieces-numbered images before k (lit c ∷ ps) r e n new =
    subst (λ now. Restored k (lit c ∷ ps) r (restore_pieces images (numbered k ps) now))
      (sym (restore-lit images c r))
      (Restored-lit k c ps r _
        (restore_pieces-numbered images before k ps (record r { done = r.done ++ c ∷ [] }) e n new))
restore_pieces-numbered images before k (hit h ∷ ps) r e n new =
    let at : image_at images k ≡ some (uri_text h) =
      rw (e, n) (image_at-append before (images_of ps) (uri_text h)) in
    let sized = length-append before (uri_text h ∷ []) in
    let further = sym (append_assoc before (uri_text h ∷ []) (images_of ps)) in
    let older = All-mono {Q = λ m. m < k + 1} (λ m l. omega arith) r.seen new in
    let seen_all = All-append (λ m. m < k + 1) r.seen (k ∷ []) older (omega arith) in
    subst (λ now. Restored k (hit h ∷ ps) r (restore_pieces images (numbered (k + 1) ps) now))
      (sym (put_back-some images h k (uri_text h) r at new))
      (Restored-hit k h ps r _ (
        restore_pieces-numbered images (before ++ uri_text h ∷ []) (k + 1) ps
          (record r { done = r.done ++ uri_text h; seen = r.seen ++ k ∷ [] }) (e ∙ further)
          (omega arith) seen_all))

report-quiet :
    (images : List Text) (r : Restoring)
    → length r.seen ≡ length images
    → r.unknown ≡ 0
    → report images r ≡ record { html = r.done; warnings = [] }
unfolding report
report-quiet images r h k =
    let none_dropped : ltb 0 (length images - length r.seen) ≡ false = ground arith in
    let none_unknown : ltb 0 r.unknown ≡ false = ground arith in
    rw (none_dropped, none_unknown) refl

-- A document whose images are elided and restored comes back unit for unit, and no image is
-- reported as removed or unknown.
pub restore_images-elide_images :
    (html : Text)
    → restore_images (elide_images html).html (elide_images html).images
      ≡ record { html = html; warnings = [] }
unfolding restore_images elide_images
restore_images-elide_images html =
    let ps = scan match_uri (length html) html in
    let (ok, spelt) = scan-Scanned (length html) html (omega arith) in
    let found = scan-elided (length (elided_from 1 ps)) 1 ps (omega arith) ok in
    let out =
      restore_pieces-numbered (images_of ps) [] 1 ps (record { done = []; seen = []; unknown = 0 })
        refl refl tt in
    let sized = out.counted in
    ap
      (λ qs.
        report (images_of ps)
          (restore_pieces (images_of ps) qs (record { done = []; seen = []; unknown = 0 })))
      found
    ∙ report-quiet (images_of ps)
        (restore_pieces (images_of ps) (numbered 1 ps)
          (record { done = []; seen = []; unknown = 0 }))
        (omega arith) out.known
    ∙ ap (λ t. record { html = t; warnings = [] }) (out.done_all ∙ spelt)
