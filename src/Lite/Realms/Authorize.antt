-- ===== src/Lite/Realms/Authorize.antt =====
-- Which documents may be nested, and which resources may be read.
use vibetop.Base.{
  ◌≡◌, ◌↔◌, refl, sym, ◌∙◌, ap, true, false, ◌||◌, some, same, same_iff, arith, Bool-cases,
  Option-cases, inl, inr, ◌>>=◌,
}
use vibetop.Lite.Realms.{
  Context, Platform, Record, context_key, child_context, authorize_resource, authorize_child,
}
use vibetop.Lite.Realms.Tokens.{Laws, fields_of, context_of}

module _ {js : Platform} (laws : Laws js) where
  -- Contexts that are written alike are equal.
  context_key_injective : (c d : Context) → context_key js c ≡ context_key js d → c ≡ d
  context_key_injective c d e =
      let read_alike : some (fields_of c) ≡ some (fields_of d) =
        sym (laws.reads c) ∙ ap js.read e ∙ laws.reads d in
      let rebuilt : some c ≡ some d = ap (λ o. o >>= context_of) read_alike in
      ground (arith, rebuilt)

  -- A resource is given to the documents of its own context, and to no other.
  resource_iff :
      (source target : Record)
      → (authorize_resource js (some source) target ≡ true) ↔ (source.context ≡ target.context)
  unfolding authorize_resource
  resource_iff source target = (
    λ h. context_key_injective _ _ ((same_iff _ _).0 h),
    λ e. (same_iff _ _).1 (ap (context_key js) e),
  )

  -- A document may be nested in another just where both are documents, and its context is the one that
  -- the other gives to a child of its origin; then it may read the resources of that context only, and they are never
  -- those of its parent, unless the contexts are equal.
  pub authorize_child-child_context :
      (source target : Record)
      → ((authorize_child js (some source) target ≡ some true) ↔ (
          (source.resource_only ≡ false)
          × (target.resource_only ≡ false)
          × (child_context js source.context target.origin ≡ some target.context)))
        × ((authorize_resource js (some source) target ≡ true) ↔ (source.context ≡ target.context))
  unfolding authorize_child
  authorize_child-child_context source target = ((there, back), resource_iff source target)
    where
      there :
          authorize_child js (some source) target ≡ some true
          → (source.resource_only ≡ false)
            × (target.resource_only ≡ false)
            × (child_context js source.context target.origin ≡ some target.context)
      there h = elim (Bool-cases (source.resource_only || target.resource_only)) [
        | inl resource ↦ absurd (ground (arith, h, resource))
        | inr documents ↦ elim (Option-cases (child_context js source.context target.origin)) [
          | inl bad ↦ absurd (ground (arith, h, documents, bad))
          | inr (child, made) ↦
              let alike : same (context_key js child) (context_key js target.context) ≡ true =
                ground (arith, h, documents, made) in
              (
                ground (arith, documents),
                ground (arith, documents),
                made
                    ∙ ap some (context_key_injective child target.context ((same_iff _ _).0 alike)),
              )
        ]
      ]

      back :
          (source.resource_only ≡ false)
            × (target.resource_only ≡ false)
            × (child_context js source.context target.origin ≡ some target.context)
          → authorize_child js (some source) target ≡ some true
      back (s, t, e) =
          rw
            (
              s,
              t,
              e,
              (same_iff (context_key js target.context) (context_key js target.context)).1 refl,
            )
            refl
