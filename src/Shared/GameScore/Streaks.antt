-- ===== src/Shared/GameScore/Streaks.antt =====
-- The statistics of a board over the games that are finished on it.
use vibetop.Base.{
  ℕ, ◌+◌, ◌≤◌, ◌≡◌, refl, sym, ◌∙◌, ap, subst, Bool, true, false, List, [], ◌∷◌, if◌then◌else◌,
  arith, Text, lookup, put, lookup-put_same,
}
use vibetop.Shared.GameScore.{
  Disk, Stats, finished, finish, stats_of, read_stats, or_no_stats, or_empty,
}

-- The streak is within the best streak, which is within the wins, which are within the games.
pub record IsSound (s : Stats) : Type 0 where
  pub streak : s.cur ≤ s.best
  pub best_won : s.best ≤ s.w
  pub won_played : s.w ≤ s.n

-- Games finished one after the other on one board: whether each was won, and its marks.
pub finish_all : Text → Text → List (Bool × List (Text × ℕ)) → Disk → Disk
unfolding finish
finish_all game board [] d = d
finish_all game board ((won, extra) ∷ games) d =
    finish_all game board games (finish game board won extra d).0

pub wins : List (Bool × List (Text × ℕ)) → ℕ
wins [] = 0
wins ((won, _) ∷ games) = (if won then 1 else 0) + wins games

pub played : List (Bool × List (Text × ℕ)) → ℕ
played [] = 0
played (_ ∷ games) = 1 + played games

-- What a game adds to the statistics.
abbrev Counts : Bool → Stats → Stats → Type 0
Counts won s t = (t.n ≡ s.n + 1) × (t.w ≡ s.w + (if won then 1 else 0))

finished-IsSound :
    (won : Bool) (extra : List (Text × ℕ)) (s : Stats)
    → IsSound s
    → IsSound (finished won extra s) × Counts won s (finished won extra s)
unfolding finished
finished-IsSound true extra s h = (
  record {
    streak = omega arith;
    best_won = omega (arith, h.streak, h.best_won);
    won_played = omega (arith, h.won_played);
  },
  (refl, refl),
)
finished-IsSound false extra s h = (
  record { streak = omega arith; best_won = h.best_won; won_played = omega (arith, h.won_played) },
  (refl, omega arith),
)

stats_of-finish :
    (game board : Text) (won : Bool) (extra : List (Text × ℕ)) (d : Disk)
    → stats_of game board (finish game board won extra d).0
      ≡ finished won extra (stats_of game board d)
unfolding finish
stats_of-finish game board won extra d =
    ap (λ m. or_no_stats (lookup board (or_empty m)))
      (lookup-put_same game
        (put board (finished won extra (stats_of game board d)) (read_stats game d)) d.stats)
    ∙ ap or_no_stats
        (lookup-put_same board (finished won extra (stats_of game board d)) (read_stats game d))

-- After any games finished on a board whose statistics are sound, such as a new one, they are sound:
-- the streak is within the best streak, that within the wins, and the wins within the games. And
-- exactly these games and wins have been added.
stats_of-finish_all :
    (game board : Text) (games : List (Bool × List (Text × ℕ))) (d : Disk)
    → IsSound (stats_of game board d)
    → let s = stats_of game board d in
      let t = stats_of game board (finish_all game board games d) in
      IsSound t × (t.n ≡ s.n + played games) × (t.w ≡ s.w + wins games)
unfolding finish_all wins played
stats_of-finish_all game board [] d h = (h, omega arith, omega arith)
stats_of-finish_all game board ((won, extra) ∷ games) d h =
    let s = stats_of game board d in
    let next = stats_of-finish game board won extra d in
    let (sound, (played_one, won_one)) = finished-IsSound won extra s h in
    let (t_sound, n, w) =
      stats_of-finish_all game board games (finish game board won extra d).0
        (subst IsSound (sym next) sound) in
    (
      t_sound,
      omega (arith, n, ap (λ (t : Stats). t.n) next, played_one),
      omega (arith, w, ap (λ (t : Stats). t.w) next, won_one),
    )
