-- ===== src/Files/Preview.antt =====
-- apps/everyday/files/filesx-core.js: the preview that follows its file (`previewReload`,
-- `scrollAfterReload`, `bustUrl`). Times and sizes are natural numbers, and scroll positions whole pixels.
mod Tests
use vibetop.Base.{
  ℕ, ◌+◌, ◌-◌, ◌≤◌, ◌≡◌, refl, min, Bool, true, false, ◌&&◌, Option, none, some, List, ◌∷◌, [],
  ◌++◌, if◌then◌else◌, ◌==◌, leb, arith, Text, same, same_refl, mem, codes, Bool-cases, inl, inr,
  eq_of_same,
}
use vibetop.Files.Paths.{show}

pub record Watch : Type 0 where
  pub path : Text
  pub mtime : ℕ
  pub size : ℕ

-- The `stat` of a reply: `none` where it is missing or the reply is no success.
pub record Stat : Type 0 where
  pub mtime : ℕ
  pub size : ℕ

watch_stat : Watch → Text → Stat → Option Watch
watch_stat w path d =
    if same path w.path
    then if d.mtime == w.mtime && d.size == w.size
      then none
      else some (record { path = w.path; mtime = d.mtime; size = d.size })
    else none

pub preview_reload : Option Watch → Text → Option Stat → Option Watch
unfolding watch_stat
preview_reload none path d = none
preview_reload (some w) path none = none
preview_reload (some w) path (some d) = watch_stat w path d

-- The watch after a reply.
pub follow : Watch → Text → Option Stat → Watch
unfolding preview_reload
follow w path d = elim (preview_reload (some w) path d) [ none ↦ w | some w' ↦ w' ]

-- A reply about the watched file brings the watch up to date, and a reply about another file, or none,
-- leaves it as it is; after either, the same reply asks for no reload.
preview_reload-follow :
    (w : Watch) (path : Text) (d : Option Stat)
    → (preview_reload (some (follow w path d)) path d ≡ none) × ((follow w path d).path ≡ w.path)
unfolding follow
preview_reload-follow w path none = (refl, refl)
preview_reload-follow w path (some d) = (ground arith, ground arith)

pub bust_url : Text → Option ℕ → Text
bust_url url mtime =
    url
    ++ (if mem 63 url then codes "&" else codes "?")
    ++ codes "v="
    ++ show (elim mtime [ none ↦ 0 | some m ↦ m ])

pub record Scroll : Type 0 where
  pub top : ℕ
  pub client_h : ℕ
  pub scroll_h : ℕ

pub scroll_after_reload : (before after : Scroll) → ℕ
scroll_after_reload before after =
    let max_top = after.scroll_h - after.client_h in
    if leb (before.scroll_h - 4) (before.top + before.client_h)
    then max_top
    else min before.top max_top
