-- ===== src/Term/KbdInput/Line.antt =====
-- The shell's line editor, as far as the forwarder relies on it: DEL takes the last character away,
-- CR enters the line, and any other character is typed. The lemmas say what a delta does to a line.
use vibetop.Base.{
  ℕ, suc, ◌-◌, ◌≡◌, ◌≢◌, refl, sym, ◌∙◌, ap, true, List, [], ◌∷◌, ◌++◌, arith, if◌then◌else◌, ◌==◌,
  ==_iff, length, drop, replicate, Bool-cases, inl, inr, reverse, reverse-cons, append_assoc,
  length-reverse,
}
use vibetop.Term.KbdInput.{del_code, cr_code, common, delta}

-- `line` holds the last character first; `entered` the lines entered, the latest first.
pub record Shell : Type 0 where
  pub line : List ℕ
  pub entered : List (List ℕ)

abbrev rub_out : List ℕ → List ℕ
rub_out [] = []
rub_out (_ ∷ cs) = cs

type_char : ℕ → Shell → Shell
type_char c sh =
    if c == del_code
    then record sh { line = rub_out sh.line }
    else if c == cr_code
    then record { line = []; entered = reverse sh.line ∷ sh.entered }
    else record sh { line = c ∷ sh.line }

unfoldable pub feed : List ℕ → Shell → Shell
unfolding type_char
feed [] sh = sh
feed (c ∷ cs) sh = feed cs (type_char c sh)

-- A text with neither DEL nor CR.
abbrev pub IsPlain : List ℕ → Type 0
IsPlain [] = Unit
IsPlain (c ∷ cs) = (c ≢ del_code) × (c ≢ cr_code) × IsPlain cs

pub feed-append : (xs ys : List ℕ) (sh : Shell) → feed (xs ++ ys) sh ≡ feed ys (feed xs sh)
unfolding feed
feed-append [] ys sh = refl
feed-append (x ∷ xs) ys sh = feed-append xs ys (type_char x sh)

abbrev pub at_line : Shell → List ℕ → Shell
at_line sh l = record sh { line = l }

feed-replicate :
    (l p : List ℕ) (sh : Shell)
    → feed (replicate (length l) del_code) (at_line sh (l ++ p)) ≡ at_line sh p
unfolding feed
feed-replicate [] p sh = refl
feed-replicate (c ∷ l) p sh = feed-replicate l p sh

type_plain :
    (c : ℕ) (p : List ℕ) (sh : Shell)
    → c ≢ del_code
    → c ≢ cr_code
    → type_char c (at_line sh p) ≡ at_line sh (c ∷ p)
unfolding type_char
type_plain c p sh nd nc = ground arith

reverse-cons-append : (c : ℕ) (v p : List ℕ) → reverse (c ∷ v) ++ p ≡ reverse v ++ c ∷ p
reverse-cons-append c v p = simp (reverse-cons, append_assoc)

feed_plain :
    (v p : List ℕ) (sh : Shell) → IsPlain v → feed v (at_line sh p) ≡ at_line sh (reverse v ++ p)
unfolding feed
feed_plain [] p sh h = refl
feed_plain (c ∷ v) p sh (nd, nc, h) =
    rw (type_plain c p sh nd nc, reverse-cons-append c v p) (feed_plain v (c ∷ p) sh h)

-- With nothing in common the whole old text goes and the whole new text comes.
feed_all :
    (n : ℕ) (va la p : List ℕ) (sh : Shell)
    → n ≡ length la
    → IsPlain va
    → feed (replicate n del_code ++ va) (at_line sh (reverse la ++ p))
      ≡ at_line sh (reverse va ++ p)
feed_all n va la p sh e h =
    rw (e ∙ sym (length-reverse la), feed-append, feed-replicate (reverse la) p sh)
      (feed_plain va p sh h)

delta-cons : (v l : ℕ) (va la : List ℕ) → (v == l) ≡ true → delta (v ∷ va) (l ∷ la) ≡ delta va la
unfolding delta
delta-cons v l va la eq =
    let less : suc (length la) - suc (common va la) ≡ length la - common va la = omega arith in
    rw (eq, common) (ap (λ n. replicate n del_code ++ drop (common va la) va) less)

-- Sending the delta from `la` to `va` turns a line that ends in `la` into one that ends in `va`.
pub feed-delta :
    (va la p : List ℕ) (sh : Shell)
    → IsPlain va
    → feed (delta va la) (at_line sh (reverse la ++ p)) ≡ at_line sh (reverse va ++ p)
unfolding delta
feed-delta [] la p sh h = feed_all (length la - 0) [] la p sh (omega arith) h
feed-delta (v ∷ va) [] p sh h = feed_all 0 (v ∷ va) [] p sh refl h
feed-delta (v ∷ va) (l ∷ la) p sh h = elim (Bool-cases (v == l)) [
  | inl eq ↦
      rw
        (
          delta-cons v l va la eq,
          (==_iff v l).0 eq,
          reverse-cons-append l va p,
          reverse-cons-append l la p,
        )
        (feed-delta va la (l ∷ p) sh h.2)
  | inr ne ↦ rw (ne, common) (feed_all (suc (length la) - 0) (v ∷ va) (l ∷ la) p sh (omega arith) h)
]
