-- ===== src/Lite/Realms/File/Reload.antt =====
-- A registry that is started again from its file is the one that wrote it.
use vibetop.Base.{
  ◌≡◌, ◌⊎◌, refl, subst, ◌∙◌, ap, false, none, some, List, [], ◌∷◌, ◌++◌, leb, length, Text, lookup,
  put, is_nil, split_at, split_at-append, arith, Option-cases, Bool-cases, inl, inr, bind-some,
}
use vibetop.Lite.Url.{Url}
use vibetop.Lite.Realms.{
  Context, Platform, Config, Record, Records, origin_of, read_context, context_token, describe,
  add_record, register,
}
use vibetop.Lite.Realms.Tokens.{Laws, read_context_same}
use vibetop.Lite.Realms.File.{
  Lines, Saved, newline, drop_last, save_record, register_saved, saved_after, load_line, load_lines,
  load, run_saved, text_of,
}

-- A line is read as what was written, is not empty, and has no newline.
pub record LineLaws (file : Lines) : Type 0 where
  pub reads :
      (origin : Text) (c : Context) → file.read_line (file.print_line origin c) ≡ some (origin, c)
  pub full : (origin : Text) (c : Context) → is_nil (file.print_line origin c) ≡ false
  pub one :
      (origin : Text) (c : Context)
      → split_at newline (file.print_line origin c) ≡ file.print_line origin c ∷ []

abbrev pub AllLines : List Text → Type 0
AllLines [] = Unit
AllLines (t ∷ ts) = (split_at newline t ≡ t ∷ []) × AllLines ts

AllLines-append : (a b : List Text) → AllLines a → AllLines b → AllLines (a ++ b)
AllLines-append [] b p q = q
AllLines-append (x ∷ a) b (h, p) q = (h, AllLines-append a b p q)

-- The lines of the file, and not what was cut off.
drop_last-split_at :
    (lines : List Text) (rest : Text)
    → AllLines lines
    → split_at newline rest ≡ rest ∷ []
    → (drop_last (split_at newline (text_of lines rest)) ≡ lines)
      × (t : Text) × (ts : List Text) × (split_at newline (text_of lines rest) ≡ t ∷ ts)
drop_last-split_at [] rest a r = (ap drop_last r, rest, [], r)
drop_last-split_at (line ∷ lines) rest (one, a) r =
    let (dropped, t, ts, e) = drop_last-split_at lines rest a r in
    let whole = split_at-append newline line (text_of lines rest) one in
    (
      ap drop_last whole ∙ more line t ts e dropped,
      line,
      split_at newline (text_of lines rest),
      whole,
    )
  where
    more :
        (line t : Text) (ts : List Text) {all : List Text}
        → all ≡ t ∷ ts
        → drop_last all ≡ lines
        → drop_last (line ∷ all) ≡ line ∷ lines
    more line t ts {all} e d = ground (arith, e, d)

module _ (js : Platform) (config : Config) (file : Lines) where
  load_lines-append :
      (a b : List Text) (records new : Records)
      → load_lines js config file a records ≡ some new
      → load_lines js config file (a ++ b) records ≡ load_lines js config file b new
  unfolding load_lines
  load_lines-append [] b records new h = ground (arith, h)
  load_lines-append (x ∷ a) b records new h =
      let (mid, e, h₁) = bind-some (load_line js config file x records) _ h in
      rw e (load_lines-append a b mid new h₁)

  module _ (laws : Laws js) (lines : LineLaws file)
      (origins : (url o : Text) → origin_of js url ≡ some o → origin_of js o ≡ some o) where
    -- A record describes itself.
    describe-describe :
        (url : Text) (c : Context) (r : Record)
        → describe js config url c ≡ some r
        → describe js config r.origin r.context ≡ some r
    unfolding describe
    describe-describe url c r h =
        let (origin, o, h₁) = bind-some (origin_of js url) _ h in
        let (context, k, h₂) =
          bind-some (read_context js config (context_token js config c)) _ h₁ in
        let same_context = read_context_same js config laws c context k in
        let is_origin : origin ≡ r.origin = ground (arith, h₂) in
        let is_context : context ≡ r.context = ground (arith, h₂) in
        subst (λ x. describe js config x r.context ≡ some r) is_origin
          (subst (λ x. describe js config origin x ≡ some r) is_context
            (rw
              (
                origins url origin o,
                subst (λ x. read_context js config (context_token js config x) ≡ some context)
                    same_context k,
              )
              h₂))

    -- The file is read as the records.
    record IsSaved (s : Saved) : Type 0 where
      loads : load_lines js config file s.lines [] ≡ some s.records
      whole : AllLines s.lines

    load_line-written :
        (r : Record) (u : Url) (records : Records)
        → describe js config r.origin r.context ≡ some r
        → js.parse r.physical ≡ some u
        → lookup u.host records ≡ none
        → leb config.max_records (length records) ≡ false
        → load_line js config file (file.print_line r.origin r.context) records
          ≡ some (put u.host r records)
    unfolding load_line register add_record
    load_line-written r u records d p absent room =
        let added : add_record js config u.host r records ≡ some (put u.host r records, r) =
          rw (absent, room, add_record) refl in
        rw (lines.full r.origin r.context, lines.reads r.origin r.context, d, p, added) refl

    load_line-last :
        (t : Text) (records new : Records)
        → load_line js config file t records ≡ some new
        → load_lines js config file (t ∷ []) records ≡ some new
    unfolding load_lines
    load_line-last t records new h = rw h refl

    save_record-IsSaved :
        (r : Record) (u : Url) (s t : Saved) (old : Record)
        → IsSaved s
        → describe js config r.origin r.context ≡ some r
        → js.parse r.physical ≡ some u
        → save_record js config file u.host r s ≡ some (t, old)
        → IsSaved t
    unfolding save_record
    save_record-IsSaved r u s t old ok d p h = elim (Option-cases (lookup u.host s.records)) [
      | inr (other, there) ↦ let e : s ≡ t = ground (arith, h, there) in subst IsSaved e ok
      | inl absent ↦ elim (Bool-cases (leb config.max_records (length s.records))) [
        | inl no_room ↦ absurd (ground (arith, h, absent, no_room))
        | inr room ↦
            let written = file.print_line r.origin r.context in
            let e : record { records = put u.host r s.records; lines = s.lines ++ written ∷ [] }
                ≡ t =
              ground (arith, h, absent, room) in
            subst IsSaved e (record {
              loads =
                  load_lines-append s.lines (written ∷ []) [] s.records ok.loads
                  ∙ load_line-last written s.records (put u.host r s.records)
                      (load_line-written r u s.records d p absent room);
              whole =
                  AllLines-append s.lines (written ∷ []) ok.whole
                    (lines.one r.origin r.context, tt);
            })
      ]
    ]

    run_saved-IsSaved :
        (calls : List (Text × Context)) (s : Saved)
        → IsSaved s
        → IsSaved (run_saved js config file calls s)
    unfolding run_saved register_saved
    run_saved-IsSaved [] s ok = ok
    run_saved-IsSaved ((url, c) ∷ more) s ok =
        run_saved-IsSaved more _ (saves (Option-cases (register_saved js config file url c s)))
      where
        saves :
            (register_saved js config file url c s ≡ none)
              ⊎ ((x : Saved × Record) × (register_saved js config file url c s ≡ some x))
            → IsSaved (saved_after (register_saved js config file url c s) s)
        saves (inl bad) = rw bad ok
        saves (inr ((t, old), good)) =
            let (r, d, h) = bind-some (describe js config url c) _ good in
            let (u, p, h₁) = bind-some (js.parse r.physical) _ h in
            rw good (save_record-IsSaved r u s t old ok (describe-describe url c r d) p h₁)

    -- After any registrations, the file is read at the next start as the very records that were registered, whatever part
    -- of a further line was cut off at its end.
    pub load-text_of :
        (calls : List (Text × Context)) (rest : Text)
        → split_at newline rest ≡ rest ∷ []
        → let s = run_saved js config file calls (record { records = []; lines = [] }) in
          load js config file (text_of s.lines rest) ≡ some s.records
    unfolding load load_lines
    load-text_of calls rest part =
        let ok =
          run_saved-IsSaved calls (record { records = []; lines = [] })
            (record { loads = refl; whole = tt }) in
        let s = run_saved js config file calls (record { records = []; lines = [] }) in
        let (dropped, _, _, _) = drop_last-split_at s.lines rest ok.whole part in
        ap (λ x. load_lines js config file x []) dropped ∙ ok.loads
