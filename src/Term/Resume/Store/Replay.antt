-- ===== src/Term/Resume/Store/Replay.antt =====
-- What is restored is what has been remembered.
use vibetop.Base.{
  ℕ, ◌+◌, ◌≤◌, ◌≡◌, refl, sym, subst, ◌∙◌, ap, true, false, Option, none, some, List, [], ◌∷◌, ◌++◌,
  if_elim, arith, length, length-append, Text, same_option, same_option_refl, append_assoc,
  append-nil, ltb, ltb→lt, if◌then◌else◌, ◌==◌, Option-cases, inl, inr,
}
use vibetop.Term.Resume.{Offset, unset, at, Frame, Cache, Action}
use vibetop.Term.Resume.Store.{
  limit, valid, remember, extend, renewed, decoded, restored, without_queries,
}

-- A frame that has been decoded.
pub record Piece : Type 0 where
  pub frame : Frame
  pub payload : Text
  pub chunk : Text

pub remember_all : List Piece → Option Cache → Option Cache
remember_all [] c = c
remember_all (p ∷ ps) c = remember_all ps (remember p.frame p.payload p.chunk c).0

unfoldable pub text_of : List Piece → Text
text_of [] = []
text_of (p ∷ ps) = p.chunk ++ text_of ps

-- The place that the last frame has reached.
unfoldable pub reached_by : List Piece → Offset → Offset
reached_by [] o = o
reached_by (p ∷ ps) o = reached_by ps p.frame.offset

module _ (atob : Text → Option Text) where
  pub decoded-append :
      (cs : List Text) (payload t chunk : Text)
      → decoded atob cs ≡ some t
      → atob payload ≡ some chunk
      → decoded atob (cs ++ payload ∷ []) ≡ some (t ++ chunk)
  unfolding decoded
  decoded-append [] payload t chunk h k = ground (arith, h, k, append-nil chunk)
  decoded-append (c ∷ cs) payload t chunk h k = elim (Option-cases (atob c)) [
    | inl lost ↦ ground (arith, h, lost)
    | inr (a, got) ↦ elim (Option-cases (decoded atob cs)) [
      | inl lost ↦ ground (arith, h, got, lost)
      | inr (b, rest) ↦
          ground
            (arith, h, got, rest, decoded-append cs payload b chunk rest k, append_assoc a b chunk)
    ]
  ]

  decoded-some :
      ((t : Text) → (u : Text) × (atob t ≡ some u))
      → (cs : List Text) → (u : Text) × (decoded atob cs ≡ some u)
  unfolding decoded
  decoded-some decodes [] = ([], refl)
  decoded-some decodes (c ∷ cs) =
      let (a, got) = decodes c in
      let (b, rest) = decoded-some decodes cs in (a ++ b, rw (got, rest) refl)

  pub restored-some :
      ((t : Text) → (u : Text) × (atob t ≡ some u))
      → (c : Option Cache) → (u : Text) × (restored atob c ≡ some u)
  unfolding restored
  restored-some decodes none = ([], refl)
  restored-some decodes (some c) =
      let (t, e) = decoded-some decodes c.chunks in (without_queries 0 t, ground (arith, e))

  nothing : decoded atob [] ≡ some []
  unfolding decoded
  nothing = refl

  -- The cache has the epoch and just the text, which is within the limit.
  pub record Holds (epoch : Option Text) (offset : Offset) (text : Text) (c : Cache) : Type 0 where
    pub same_epoch : c.epoch ≡ epoch
    pub reached : c.offset ≡ offset
    pub content : decoded atob c.chunks ≡ some text
    pub counted : c.size ≡ length text
    pub small : c.size ≤ limit

  abbrev pub AllOf : Option Text → Offset → Text → Option Cache → Type 0
  AllOf epoch offset text none = ⊥
  AllOf epoch offset text (some c) = Holds epoch offset text c

  -- An empty chunk is not kept.
  content-extend :
      (cs : List Text) (payload text chunk : Text)
      → decoded atob cs ≡ some text
      → atob payload ≡ some chunk
      → decoded atob (if length chunk == 0 then cs else cs ++ payload ∷ []) ≡ some (text ++ chunk)
  content-extend cs payload text [] h got = h ∙ ap some (sym (append-nil text))
  content-extend cs payload text (c ∷ chunk) h got =
      ground (arith, decoded-append cs payload text (c ∷ chunk) h got)

  extend-Holds :
      (frame : Frame) (payload chunk text : Text) (c : Cache) (o : Offset)
      → atob payload ≡ some chunk
      → length (text ++ chunk) ≤ limit
      → Holds frame.epoch o text c
      → AllOf frame.epoch frame.offset (text ++ chunk) (extend frame payload chunk c).0
  unfolding extend
  extend-Holds frame payload chunk text c o got fits h =
      let size : c.size + length chunk ≡ length (text ++ chunk) =
        omega (arith, h.counted, length-append text chunk) in
      if_elim
        (λ (r : Option Cache × List Action). AllOf frame.epoch frame.offset (text ++ chunk) r.0)
        (ltb limit (c.size + length chunk))
        (λ large. absurd (omega (arith, ltb→lt limit (c.size + length chunk) large)))
        (λ fine. record {
          same_epoch = h.same_epoch;
          reached = refl;
          content = content-extend c.chunks payload text chunk h.content got;
          counted = size;
          small = omega arith;
        })

  -- The frames decode, and go on in the epoch.
  abbrev pub Continue : Option Text → List Piece → Type 0
  Continue epoch [] = Unit
  Continue epoch (p ∷ ps) =
      (atob p.payload ≡ some p.chunk)
      × (p.frame.reset ≡ false)
      × (p.frame.epoch ≡ epoch)
      × Continue epoch ps

  remember-Holds :
      (ps : List Piece) (epoch : Option Text) (text : Text) (c : Option Cache) (o : Offset)
      → Continue epoch ps
      → length (text ++ text_of ps) ≤ limit
      → AllOf epoch o text c
      → AllOf epoch (reached_by ps o) (text ++ text_of ps) (remember_all ps c)
  unfolding remember_all remember renewed text_of reached_by
  remember-Holds [] epoch text c o go fits h =
      subst (λ t. AllOf epoch o t c) (sym (append-nil text)) h
  remember-Holds (p ∷ ps) epoch text none o go fits h = absurd h
  remember-Holds (p ∷ ps) epoch text (some c) o (got, stays, mine, go) fits h =
      let kept = (extend p.frame p.payload p.chunk c).0 in
      let mine_too : same_option c.epoch p.frame.epoch ≡ true =
        ap (same_option c.epoch) (mine ∙ sym h.same_epoch) ∙ same_option_refl c.epoch in
      let extended : (remember p.frame p.payload p.chunk (some c)).0 ≡ kept =
        ground (arith, stays, mine_too) in
      let whole = append_assoc text p.chunk (text_of ps) in
      let size = ap (length {A = ℕ}) whole in
      let holds : AllOf epoch p.frame.offset (text ++ p.chunk) kept =
        subst (λ e. AllOf e p.frame.offset (text ++ p.chunk) kept) mine
          (extend-Holds p.frame p.payload p.chunk text c o got
            (omega (arith, length-append (text ++ p.chunk) (text_of ps)))
            (subst (λ e. Holds e o text c) (sym mine) h)) in
      subst
        (λ d.
          AllOf epoch (reached_by ps p.frame.offset) (text ++ (p.chunk ++ text_of ps))
            (remember_all ps d))
        (sym extended)
        (subst (λ t. AllOf epoch (reached_by ps p.frame.offset) t (remember_all ps kept)) whole
          (remember-Holds ps epoch (text ++ p.chunk) kept p.frame.offset go (omega arith) holds))

  AllOf-restored :
      (epoch text : Text) (n : ℕ) (c : Option Cache)
      → AllOf (some epoch) (at n) text c
      → (restored atob c ≡ some (without_queries 0 text)) × (valid c ≡ some (epoch, n))
  unfolding restored valid
  AllOf-restored epoch text n none h = absurd h
  AllOf-restored epoch text n (some c) h =
      (ground (arith, h.content), ground (arith, h.same_epoch, h.reached, h.small))

  -- After a frame that resets and frames that go on in its epoch, which decode and stay within the
  -- limit together, the cache is valid for the epoch at the place of the last frame and restores
  -- just the text of all of them, in order, without the terminal's queries.
  pub restored-remember_all :
      (p : Piece) (ps : List Piece) (c : Option Cache) (epoch : Text) (n : ℕ)
      → p.frame.reset ≡ true
      → p.frame.epoch ≡ some epoch
      → atob p.payload ≡ some p.chunk
      → Continue (some epoch) ps
      → length (text_of (p ∷ ps)) ≤ limit
      → reached_by ps p.frame.offset ≡ at n
      → (restored atob (remember_all (p ∷ ps) c) ≡ some (without_queries 0 (text_of (p ∷ ps))))
        × (valid (remember_all (p ∷ ps) c) ≡ some (epoch, n))
  unfolding remember_all remember renewed text_of
  restored-remember_all p ps c epoch n resets named got go fits reached =
      let fresh : Cache = record { epoch = p.frame.epoch; offset = unset; chunks = []; size = 0 } in
      let kept = (extend p.frame p.payload p.chunk fresh).0 in
      let started : (remember p.frame p.payload p.chunk c).0 ≡ kept =
        ground (arith, resets, same_option_refl p.frame.epoch) in
      let first : AllOf (some epoch) p.frame.offset p.chunk kept =
        subst (λ e. AllOf e p.frame.offset p.chunk kept) named
          (extend-Holds p.frame p.payload p.chunk [] fresh unset got
            (omega (arith, length-append p.chunk (text_of ps)))
            (record {
              same_epoch = refl;
              reached = refl;
              content = nothing;
              counted = refl;
              small = omega arith;
            })) in
      let all = remember-Holds ps (some epoch) p.chunk kept p.frame.offset go fits first in
      AllOf-restored epoch (p.chunk ++ text_of ps) n
        (remember_all ps (remember p.frame p.payload p.chunk c).0)
        (subst (λ d. AllOf (some epoch) (at n) (p.chunk ++ text_of ps) (remember_all ps d))
          (sym started)
          (subst (λ o. AllOf (some epoch) o (p.chunk ++ text_of ps) (remember_all ps kept)) reached
            all))
