-- ===== src/Term/Http/Batch.antt =====
-- What leaves in one request: it has the meaning of the frames that it takes off the queue.
use vibetop.Base.{
  ℕ, zero, suc, ◌+◌, ◌≤◌, ◌≡◌, refl, sym, ◌∙◌, ap, Bool, true, ◌&&◌, List, [], ◌∷◌, ◌++◌,
  if◌then◌else◌, if_elim, leb, length, drop, Text, arith, append_assoc, append-nil,
}
use vibetop.Term.Http.{
  Frame, Request, starts, same_kind, input_code, resize_code, take_resizes, take_inputs, size_of,
  joined, next_request, max_frame,
}

-- What the server's shell gets: the bytes that are typed, and the other frames, each as it is.
pub data Item : Type 0 where
  typed : (binary : Bool) → ℕ → Item
  control : Frame → Item

typed_all : Bool → Text → List Item
typed_all b [] = []
typed_all b (c ∷ cs) = typed b c ∷ typed_all b cs

items_of : Frame → List Item
unfolding typed_all
items_of f =
    if starts input_code f.bytes then typed_all f.binary (drop 1 f.bytes) else control f ∷ []

unfoldable pub items : List Frame → List Item
unfolding items_of
items [] = []
items (f ∷ fs) = items_of f ++ items fs

typed_all-append : (b : Bool) (s t : Text) → typed_all b (s ++ t) ≡ typed_all b s ++ typed_all b t
unfolding typed_all
typed_all-append b [] t = refl
typed_all-append b (c ∷ s) t = ap (λ xs. typed b c ∷ xs) (typed_all-append b s t)

pub items-append : (fs gs : List Frame) → items (fs ++ gs) ≡ items fs ++ items gs
unfolding items
items-append [] gs = refl
items-append (f ∷ fs) gs =
    ap (λ xs. items_of f ++ xs) (items-append fs gs)
    ∙ sym (append_assoc (items_of f) (items fs) (items gs))

pub size_of-append : (fs gs : List Frame) → size_of (fs ++ gs) ≡ size_of fs + size_of gs
unfolding size_of
size_of-append [] gs = omega arith
size_of-append (f ∷ fs) gs = omega (arith, size_of-append fs gs)

take_resizes-all :
    (room : ℕ) (queue : List Frame)
    → let (more, rest) = take_resizes room queue in more ++ rest ≡ queue
unfolding take_resizes
take_resizes-all zero queue = refl
take_resizes-all (suc room) [] = refl
take_resizes-all (suc room) (f ∷ queue) =
    if_elim (λ (x : List Frame × List Frame). x.0 ++ x.1 ≡ f ∷ queue) (starts resize_code f.bytes)
      (λ more. ap (λ fs. f ∷ fs) (take_resizes-all room queue)) (λ stop. refl)

items_of_input :
    (b : Bool) (f : Frame)
    → (same_kind b f.binary && starts input_code f.bytes) ≡ true
    → items_of f ≡ typed_all b (drop 1 f.bytes)
unfolding items_of
items_of_input b f h =
    let kind : f.binary ≡ b = ground arith in
    let input : starts input_code f.bytes ≡ true = ground arith in rw (input, kind) refl

-- What a joined frame takes: its typed bytes are those of the frames that it takes, and its size is
-- theirs.
abbrev Takes : Bool → ℕ → List Frame → Text × ℕ × List Frame → Type 0
Takes b size queue x =
    (typed_all b x.0 ++ items x.2 ≡ items queue)
    × (x.1 + size_of x.2 ≡ size + size_of queue)
    × (size ≤ max_frame → x.1 ≤ max_frame)

take_inputs-Takes :
    (b : Bool) (size : ℕ) (queue : List Frame) → Takes b size queue (take_inputs b size queue)
unfolding take_inputs typed_all items size_of
take_inputs-Takes b size [] = (refl, refl, λ h. h)
take_inputs-Takes b size (f ∷ queue) =
    let (same_items, same_size, few) = take_inputs-Takes b (size + length f.bytes) queue in
    let (more, total, rest) = take_inputs b (size + length f.bytes) queue in
    if_elim (Takes b size (f ∷ queue))
      (same_kind b f.binary && starts input_code f.bytes && leb (size + length f.bytes) max_frame)
      (λ fits. (
        ap (λ xs. xs ++ items rest) (typed_all-append b (drop 1 f.bytes) more)
            ∙ append_assoc (typed_all b (drop 1 f.bytes)) (typed_all b more) (items rest)
            ∙ ap (λ xs. typed_all b (drop 1 f.bytes) ++ xs) same_items
            ∙ ap (λ xs. xs ++ items queue) (sym (items_of_input b f (ground arith))),
        omega (arith, same_size),
        λ h. few (ground arith),
      ))
      (λ stop. (refl, refl, λ h. h))

-- What a request takes off a queue: meaning and size are those of what it takes.
abbrev pub Carries : List Frame → Request × List Frame → Type 0
Carries queue x =
    (items x.0.frames ++ items x.1 ≡ items queue) × (x.0.size + size_of x.1 ≡ size_of queue)

items_of_joined :
    (f : Frame) (more : Text)
    → starts input_code f.bytes ≡ true
    → items (record { bytes = f.bytes ++ more; binary = f.binary } ∷ [])
      ≡ items_of f ++ typed_all f.binary more
unfolding items items_of
items_of_joined f more h = go f.bytes h
  where
    go :
        (bytes : Text)
        → starts input_code bytes ≡ true
        → (if starts input_code (bytes ++ more)
              then typed_all f.binary (drop 1 (bytes ++ more))
              else control (record { bytes = bytes ++ more; binary = f.binary }) ∷ [])
            ++ []
          ≡ (if starts input_code bytes then typed_all f.binary (drop 1 bytes) else control f ∷ [])
            ++ typed_all f.binary more
    go [] h = ground arith
    go (c ∷ cs) h =
        rw h (append-nil (typed_all f.binary (cs ++ more)) ∙ typed_all-append f.binary cs more)

joined-Carries :
    (seq : ℕ) (first : Frame) (queue : List Frame)
    → Carries (first ∷ queue) (joined seq first queue)
unfolding joined items size_of
joined-Carries seq first queue =
    let (more, total, rest) = take_inputs first.binary (length first.bytes) queue in
    let (same_items, same_size, few) = take_inputs-Takes first.binary (length first.bytes) queue in
    if_elim (Carries (first ∷ queue)) (starts input_code first.bytes)
      (λ input. (
        ap (λ xs. xs ++ items rest) (items_of_joined first more input)
            ∙ append_assoc (items_of first) (typed_all first.binary more) (items rest)
            ∙ ap (λ xs. items_of first ++ xs) same_items,
        same_size,
      ))
      (λ other. (ap (λ xs. xs ++ items queue) (append-nil (items_of first)), refl))

-- A request takes frames off the head of the queue, and carries exactly what they mean: the typed
-- bytes in their order, and every other frame as it is, in its place. Its size is that of the frames.
pub next_request-Carries :
    (seq : ℕ) (first : Frame) (queue : List Frame)
    → Carries (first ∷ queue) (next_request seq first queue)
unfolding next_request items size_of
next_request-Carries seq first queue =
    let (more, rest) = take_resizes 15 queue in
    let all : more ++ rest ≡ queue = take_resizes-all 15 queue in
    if_elim (Carries (first ∷ queue)) (starts resize_code first.bytes && leb 1 (length more))
      (λ several. (
        sym (items-append (first ∷ more) rest) ∙ ap (λ fs. items_of first ++ items fs) all,
        omega (arith, size_of-append more rest, ap size_of all),
      ))
      (λ single. joined-Carries seq first queue)
