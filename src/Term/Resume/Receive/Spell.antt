-- ===== src/Term/Resume/Receive/Spell.antt =====
-- The actions of a socket, character by character.
use vibetop.Base.{
  ◌≡◌, refl, sym, ◌∙◌, ap, Bool, true, false, Option, none, some, List, [], ◌∷◌, ◌++◌, Text,
  append_assoc, append-nil, map, map-append, if◌then◌else◌,
}
use vibetop.Term.Resume.{Action, show, allow_input, save, changed, close, request, Receiver, output}
use vibetop.Term.Resume.Receive.{then_do}

-- The characters that are shown, one by one among the other actions; the release of the input, which
-- shows nothing, is left out.
-- The text of packets.
unfoldable pub flatten : List Text → Text
flatten [] = []
flatten (t ∷ ts) = t ++ flatten ts

unfoldable pub spell : List Action → List Action
spell [] = []
spell (show t ∷ rest) = map (λ c. show (c ∷ [])) t ++ spell rest
spell (allow_input ∷ rest) = spell rest
spell (save ∷ rest) = save ∷ spell rest
spell (changed ∷ rest) = changed ∷ spell rest
spell (close ∷ rest) = close ∷ spell rest
spell (request r ∷ rest) = request r ∷ spell rest

pub spell-append : (xs ys : List Action) → spell (xs ++ ys) ≡ spell xs ++ spell ys
unfolding spell
spell-append [] ys = refl
spell-append (show t ∷ xs) ys = simp (spell-append xs ys, append_assoc)
spell-append (allow_input ∷ xs) ys = spell-append xs ys
spell-append (save ∷ xs) ys = ap (λ zs. save ∷ zs) (spell-append xs ys)
spell-append (changed ∷ xs) ys = ap (λ zs. changed ∷ zs) (spell-append xs ys)
spell-append (close ∷ xs) ys = ap (λ zs. close ∷ zs) (spell-append xs ys)
spell-append (request r ∷ xs) ys = ap (λ zs. request r ∷ zs) (spell-append xs ys)

abbrev pub Result : Type 0
Result = Option (Receiver × List Action)

-- A result, with its actions spelled.
abbrev pub spelled : Result → Result
spelled none = none
spelled (some (r, actions)) = some (r, spell actions)

pub spelled-then_do :
    (before : List Action) (o : Result)
    → spelled (then_do before o) ≡ then_do (spell before) (spelled o)
spelled-then_do before none = refl
spelled-then_do before (some (r, actions)) = ap (λ xs. some (r, xs)) (spell-append before actions)

spell-output_letters : (w : Text) → spell (output w) ≡ map (λ c. show (c ∷ [])) w
unfolding spell
spell-output_letters [] = refl
spell-output_letters (c ∷ w) = append-nil (map (λ d. show (d ∷ [])) (c ∷ w))

pub spell-output : (w v : Text) → spell (output (w ++ v)) ≡ spell (output w) ++ spell (output v)
spell-output w v = simp (spell-output_letters, map-append)

pub spell-quiet :
    (b : Bool) (xs : List Action) → spell ((if b then [] else allow_input ∷ []) ++ xs) ≡ spell xs
unfolding spell
spell-quiet true xs = refl
spell-quiet false xs = refl

pub then_do-then_do :
    (a b : List Action) (o : Result) → then_do a (then_do b o) ≡ then_do (a ++ b) o
then_do-then_do a b none = refl
then_do-then_do a b (some (r, actions)) = ap (λ xs. some (r, xs)) (sym (append_assoc a b actions))

pub spelled-behind :
    (w before : Text) (o : Result)
    → spelled (then_do (output (w ++ before)) o)
      ≡ then_do (spell (output w)) (spelled (then_do (output before) o))
spelled-behind w before o =
    spelled-then_do (output (w ++ before)) o
    ∙ ap (λ xs. then_do xs (spelled o)) (spell-output w before)
    ∙ sym (then_do-then_do (spell (output w)) (spell (output before)) (spelled o))
    ∙ ap (then_do (spell (output w))) (sym (spelled-then_do (output before) o))

pub then_do_nil : (o : Result) → then_do [] o ≡ o
then_do_nil none = refl
then_do_nil (some (r, actions)) = refl
