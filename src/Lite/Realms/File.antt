-- ===== src/Lite/Realms/File.antt =====
-- realm-policy.cjs: the file of the registry: an appended line for each new record, and what is read from it at the next start. A line
-- is an argument, written from an origin and a context and read as both, or not at all.
pub mod Reload
use vibetop.Base.{
  ℕ, ◌≡◌, refl, sym, subst, ◌∙◌, ap, Bool, true, false, Option, none, some, List, [], ◌∷◌, ◌++◌,
  if◌then◌else◌, leb, length, Text, lookup, put, is_nil, split_at, split_at-append, arith,
  Option-cases, Bool-cases, inl, inr, bind-some, ◌>>=◌, append_assoc, append-nil,
}
use vibetop.Lite.Url.{Url}
use vibetop.Lite.Realms.{
  Context, Platform, Config, Record, Records, origin_of, context_key, read_context, context_token,
  describe, add_record, register,
}
use vibetop.Lite.Realms.Tokens.{Laws}

abbrev pub newline : ℕ
newline = 10

pub record Lines : Type 0 where
  pub print_line : Text → Context → Text
  pub read_line : Text → Option (Text × Context)

pub record Saved : Type 0 where
  pub records : Records
  pub lines : List Text

abbrev pub saved_after : Option (Saved × Record) → Saved → Saved
saved_after none s = s
saved_after (some (t, _)) s = t

abbrev pub drop_last : List Text → List Text
drop_last [] = []
drop_last (t ∷ []) = []
drop_last (t ∷ u ∷ ts) = t ∷ drop_last (u ∷ ts)

module _ (js : Platform) (config : Config) (file : Lines) where
  pub save_record : Text → Record → Saved → Option (Saved × Record)
  unfolding lookup put
  save_record host r s = elim (lookup host s.records) [
    | some old ↦ some (s, old)
    | none ↦
        if leb config.max_records (length s.records)
        then none
        else some (
          record {
            records = put host r s.records;
            lines = s.lines ++ file.print_line r.origin r.context ∷ [];
          },
          r,
        )
  ]

  -- `register` with a file.
  pub register_saved : Text → Context → Saved → Option (Saved × Record)
  unfolding describe save_record
  register_saved url c s = do
    r ← describe js config url c
    u ← js.parse r.physical
    save_record u.host r s

  pub load_line : Text → Records → Option Records
  unfolding register
  load_line line records = if is_nil line then some records else (do
    (origin, c) ← file.read_line line
    (new, _) ← register js config origin c records
    some new)

  pub load_lines : List Text → Records → Option Records
  unfolding load_line
  load_lines [] records = some records
  load_lines (line ∷ lines) records = do new ← load_line line records; load_lines lines new

  -- The start of the registry: what comes after the last newline is left out.
  pub load : Text → Option Records
  unfolding load_lines split_at
  load saved = load_lines (drop_last (split_at newline saved)) []

  -- Registrations in order.
  pub run_saved : List (Text × Context) → Saved → Saved
  unfolding register_saved
  run_saved [] s = s
  run_saved ((url, c) ∷ more) s = run_saved more (saved_after (register_saved url c s) s)

-- The text of the file, with a part of a line that was cut off.
abbrev pub text_of : List Text → Text → Text
text_of [] rest = rest
text_of (line ∷ lines) rest = line ++ newline ∷ text_of lines rest
