-- ===== src/Term/Resume/Turns.antt =====
-- A turn of the loop when more text has arrived, and what is left after a turn.
use vibetop.Base.{
  ◌≤◌, ◌<◌, ◌≡◌, refl, sym, ◌∙◌, ap, Option, none, some, [], ◌∷◌, ◌++◌, arith, length,
  length-append, Text, append_assoc, append-nil, Option-cases, inl, inr,
}
use vibetop.Term.Resume.{
  marker, strip_prefix, cut, hold_back, until_bell, from_last, Turn, plain, unfinished, broken,
  envelope, scan_envelope, scan,
}
use vibetop.Term.Resume.Scan.{
  cut-append, cut-hold_back, cut-length, hold_back-append, until_bell-append, until_bell-length,
  from_last-length,
}

-- A turn with more plain text in front.
abbrev pub in_turn : Text → Turn → Turn
in_turn w (plain before kept) = plain (w ++ before) kept
in_turn w (unfinished before rest) = unfinished (w ++ before) rest
in_turn w (broken before rest) = broken (w ++ before) rest
in_turn w (envelope before body after) = envelope (w ++ before) body after

abbrev pub continued : Turn → Text → Turn
continued (plain before kept) y = in_turn before (scan (kept ++ y))
continued (unfinished before rest) y = in_turn before (scan (rest ++ y))
continued (broken before rest) y = broken before (rest ++ y)
continued (envelope before body after) y = envelope before body (after ++ y)

scan_envelope-in_turn :
    (w before rest : Text)
    → scan_envelope (w ++ before) rest ≡ in_turn w (scan_envelope before rest)
unfolding scan_envelope
scan_envelope-in_turn w before rest = elim (Option-cases (until_bell rest)) [
  | inl no_bell ↦ ground (arith, no_bell)
  | inr ((body, after), found) ↦ ground (arith, found, Option-cases (from_last marker body))
]

scan-marker : (z : Text) → scan (marker ++ z) ≡ scan_envelope [] z
unfolding scan marker strip_prefix cut
scan-marker z = refl

scan_envelope-continued :
    (before rest y : Text)
    → scan_envelope before (rest ++ y) ≡ continued (scan_envelope before rest) y
unfolding scan_envelope
scan_envelope-continued before rest y = elim (Option-cases (until_bell rest)) [
  | inl no_bell ↦
      let whole : scan_envelope before rest ≡ unfinished before (marker ++ rest) =
        ground (arith, no_bell) in
      ap (λ w. scan_envelope w (rest ++ y)) (sym (append-nil before))
      ∙ scan_envelope-in_turn before [] (rest ++ y)
      ∙ ap (in_turn before) (sym (scan-marker (rest ++ y)))
      ∙ ap (λ z. in_turn before (scan z)) (sym (append_assoc marker rest y))
      ∙ sym (ap (λ t. continued t y) whole)
  | inr ((body, after), found) ↦ elim (Option-cases (from_last marker body)) [
    | inl whole ↦ ground (arith, found, whole, until_bell-append rest y body after found)
    | inr (newer, later) ↦ ground (
      arith,
      found,
      later,
      until_bell-append rest y body after found,
      append_assoc newer (7 ∷ after) y,
    )
  ]
]

-- After text without a marker.
more :
    (x y : Text) (found : Option (Text × Text))
    → cut marker ((hold_back marker x).1 ++ y) ≡ found
    → cut marker x ≡ none
    → scan (x ++ y) ≡ in_turn (hold_back marker x).0 (scan ((hold_back marker x).1 ++ y))
unfolding scan
more x y none e absent =
    ground (arith, e, absent, cut-hold_back marker x y absent, hold_back-append marker x y)
more x y (some (before, rest)) e absent = ground (
  arith,
  e,
  absent,
  cut-hold_back marker x y absent,
  scan_envelope-in_turn (hold_back marker x).0 before rest,
)

pub scan-append : (x y : Text) → scan (x ++ y) ≡ continued (scan x) y
unfolding scan
scan-append x y = elim (Option-cases (cut marker x)) [
  | inl absent ↦
      let (w, kept) = hold_back marker x in
      let here : scan x ≡ plain w kept = ground (arith, absent) in
      more x y (cut marker (kept ++ y)) refl absent ∙ sym (ap (λ t. continued t y) here)
  | inr ((before, rest), found) ↦
      ground (
        arith,
        found,
        cut-append marker x y before rest found,
        scan_envelope-continued before rest y,
      )
]

-- The text that a turn leaves to the next one is shorter.
abbrev pub left_over : Turn → Text
left_over (plain before kept) = []
left_over (unfinished before rest) = []
left_over (broken before rest) = rest
left_over (envelope before body after) = after

marker-length : length marker ≡ 16
unfolding marker
marker-length = refl

scan_envelope-lt :
    (before rest : Text) → length (left_over (scan_envelope before rest)) ≤ length rest
unfolding scan_envelope
scan_envelope-lt before rest = elim (Option-cases (until_bell rest)) [
  | inl no_bell ↦ ground (arith, no_bell)
  | inr ((body, after), found) ↦
      let size = until_bell-length rest body after found in
      elim (Option-cases (from_last marker body)) [
        | inl whole ↦ ground (arith, found, whole, size)
        | inr (newer, later) ↦ ground (
          arith,
          found,
          later,
          size,
          from_last-length marker body newer later,
          length-append newer (7 ∷ after),
        )
      ]
]

pub left_over-lt : (x : Text) → 0 < length x → length (left_over (scan x)) < length x
unfolding scan
left_over-lt x some_text = elim (Option-cases (cut marker x)) [
  | inl absent ↦ ground (arith, absent)
  | inr ((before, rest), found) ↦ ground (
    arith,
    found,
    cut-length marker x before rest found,
    marker-length,
    scan_envelope-lt before rest,
  )
]
