-- ===== src/Term/Http/Deliver.antt =====
-- The frames of the server arrive once each, in order, however its responses overlap.
use vibetop.Base.{
  ℕ, ◌+◌, ◌≤◌, ◌≡◌, refl, sym, ◌∙◌, ap, subst, max, List, [], ◌∷◌, ◌++◌, take, if◌then◌else◌,
  if_elim, leb, length, arith, append_assoc, length-append,
}
use vibetop.Term.Http.{Frame, Socket, Numbered, deliver_frames}

-- Frames numbered from `i + 1` on.
unfoldable pub numbered : ℕ → List Frame → List Numbered
numbered i [] = []
numbered i (f ∷ fs) = record { seq = i + 1; frame = f } ∷ numbered (i + 1) fs

-- Just the first frames of the history have been delivered, up to the last number that was seen.
abbrev pub IsUpTo : List Frame → Socket → Type 0
IsUpTo history s = s.delivered ≡ take s.after history

take-append : (pre xs : List Frame) → take (length pre) (pre ++ xs) ≡ pre
take-append [] xs = refl
take-append (f ∷ pre) xs = ap (λ fs. f ∷ fs) (take-append pre xs)

length-snoc : (pre : List Frame) (f : Frame) → length (pre ++ f ∷ []) ≡ length pre + 1
length-snoc pre f = length-append pre (f ∷ [])

-- What a delivery of a slice leads to.
abbrev Reached : List Frame → ℕ → ℕ → Socket → Type 0
Reached history after upto t = IsUpTo history t × (t.after ≡ max after upto)

next_one :
    (pre : List Frame) (f : Frame) (rest : List Frame) (s : Socket)
    → length pre ≡ s.after
    → IsUpTo (pre ++ f ∷ rest) s
    → s.delivered ++ f ∷ [] ≡ take (length pre + 1) (pre ++ f ∷ rest)
next_one pre f rest s here h =
    let seen : s.delivered ≡ pre =
      h ∙ ap (λ n. take n (pre ++ f ∷ rest)) (sym here) ∙ take-append pre (f ∷ rest) in
    let grown : take (length (pre ++ f ∷ [])) ((pre ++ f ∷ []) ++ rest) ≡ pre ++ f ∷ [] =
      take-append (pre ++ f ∷ []) rest in
    ap (λ fs. fs ++ f ∷ []) seen
    ∙ sym grown
    ∙ ap (λ fs. take (length (pre ++ f ∷ [])) fs) (append_assoc pre (f ∷ []) rest)
    ∙ ap (λ n. take n (pre ++ f ∷ rest)) (length-snoc pre f)

-- The cases of a frame: seen before, or the next one.
deliver_next :
    (history pre : List Frame) (f : Frame) (rest : List Frame) (s : Socket) (i : ℕ)
    → history ≡ pre ++ f ∷ rest
    → i ≡ length pre
    → i ≤ s.after
    → IsUpTo history s
    → let t =
        if leb (i + 1) s.after
        then s
        else record s { delivered = s.delivered ++ f ∷ []; after = i + 1 } in
      IsUpTo history t × (t.after ≡ max s.after (i + 1))
deliver_next history pre f rest s i parts e le h =
    if_elim (λ (t : Socket). IsUpTo history t × (t.after ≡ max s.after (i + 1)))
      (leb (i + 1) s.after) (λ seen. (h, ground arith))
      (λ new.
        let here : length pre ≡ s.after = ground arith in
        (
          next_one pre f rest s here (subst (λ fs. IsUpTo fs s) parts h)
              ∙ ap (λ n. take (n + 1) (pre ++ f ∷ rest)) (sym e)
              ∙ ap (take (i + 1)) (sym parts),
          ground arith,
        ))

deliver_slice :
    (history pre xs post : List Frame) (s : Socket) (i : ℕ)
    → history ≡ pre ++ (xs ++ post)
    → i ≡ length pre
    → i ≤ s.after
    → IsUpTo history s
    → Reached history s.after (i + length xs) (deliver_frames (numbered i xs) s)
unfolding deliver_frames numbered
deliver_slice history pre [] post s i parts e le h = (h, omega arith)
deliver_slice history pre (f ∷ xs) post s i parts e le h =
    let t : Socket =
      if leb (i + 1) s.after
      then s
      else record s { delivered = s.delivered ++ f ∷ []; after = i + 1 } in
    let (upto, last) = deliver_next history pre f (xs ++ post) s i parts e le h in
    let (all, end) =
      deliver_slice history (pre ++ f ∷ []) xs post t (i + 1)
        (parts ∙ sym (append_assoc pre (f ∷ []) (xs ++ post))) (omega (arith, e, length-snoc pre f))
        (omega (arith, last)) upto in
    (all, omega (arith, end, last))

-- A response that carries a run of the server's frames, numbered by their place, beginning no later than after
-- the last frame seen: then just the first frames of the server's history have been delivered, each once
-- and in order, up to the end of the run or to the last frame seen, whichever is further.
deliver_frames-numbered :
    (pre xs post : List Frame) (s : Socket)
    → length pre ≤ s.after
    → IsUpTo (pre ++ (xs ++ post)) s
    → let t = deliver_frames (numbered (length pre) xs) s in
      IsUpTo (pre ++ (xs ++ post)) t × (t.after ≡ max s.after (length pre + length xs))
deliver_frames-numbered pre xs post s le h =
    deliver_slice (pre ++ (xs ++ post)) pre xs post s (length pre) refl refl le h
