-- ===== src/Files/Paths.antt =====
-- apps/everyday/files/filesx-core.js: paths, names and kinds. Texts are lists of code points.
pub mod Resolve
pub mod Names
mod Tests
use vibetop.Base.{
  ℕ, zero, suc, ◌+◌, ◌-◌, ◌/◌, ◌%◌, Bool, true, false, ◌&&◌, ◌||◌, not, Option, none, some, List,
  [], ◌∷◌, ◌++◌, if◌then◌else◌, ◌==◌, ltb, leb, length, take, drop, reverse, Text, same, codes,
  lookup, trim, prepend,
}

abbrev pub slash : ℕ
slash = 47

abbrev pub dot : ℕ
dot = 46

-- `p.split('/')`
pub split : Text → List Text
split [] = [] ∷ []
split (c ∷ cs) = let rest = split cs in if c == slash then [] ∷ rest else prepend c rest

-- `out.join('/')`
pub join : List Text → Text
join [] = []
join (s ∷ []) = s
join (s ∷ r ∷ rest) = s ++ slash ∷ join (r ∷ rest)

abbrev pub is_here : Text → Bool
is_here seg = same seg [] || same seg (dot ∷ [])

abbrev pub is_up : Text → Bool
is_up seg = same seg (dot ∷ dot ∷ [])

abbrev pub pop : List Text → List Text
pop [] = []
pop (_ ∷ out) = out

abbrev pub step_piece : List Text → Text → List Text
step_piece out seg = if is_here seg then out else if is_up seg then pop out else seg ∷ out

-- The pieces that stay, the last one first.
pub walk : (out segs : List Text) → List Text
walk out [] = out
walk out (seg ∷ segs) = walk (step_piece out seg) segs

abbrev pub or_empty : Option Text → Text
or_empty none = []
or_empty (some t) = t

-- The path as the user means it, from the root on: `~` is the home folder, and a relative path begins
-- in the current folder. A missing `cwd` or `home` is `none`.
home_of : Option Text → Text
home_of none = slash ∷ []
home_of (some []) = slash ∷ []
home_of (some (c ∷ cs)) = c ∷ cs

expand_home : Text → Option Text → Text
unfolding home_of
expand_home p home =
    if same p (codes "~")
    then home_of home
    else if same (take 2 p) (codes "~/")
    then or_empty home ++ drop 1 p
    else p

base_of : Option Text → Text
base_of none = []
base_of (some cwd) = if same cwd (slash ∷ []) then [] else cwd

abbrev is_absolute : Text → Bool
is_absolute [] = false
is_absolute (c ∷ cs) = c == slash

make_absolute : Text → Option Text → Text
unfolding base_of
make_absolute p cwd = if is_absolute p then p else base_of cwd ++ slash ∷ p

pub resolve : Text → Text
unfolding split walk join
resolve p = slash ∷ join (reverse (walk [] (split p)))

pub norm_path : Text → (cwd home : Option Text) → Option Text
unfolding trim expand_home make_absolute resolve
norm_path input cwd home =
    let p = trim input in
    if same p [] then none else some (resolve (make_absolute (expand_home p home) cwd))

-- `t.lastIndexOf(c)`
pub last_index : ℕ → Text → Option ℕ
last_index c [] = none
last_index c (d ∷ ds) = elim (last_index c ds) [
  | some i ↦ some (i + 1)
  | none ↦ if d == c then some 0 else none
]

abbrev pub is_prefix : Text → Text → Bool
is_prefix [] t = true
is_prefix (c ∷ cs) [] = false
is_prefix (c ∷ cs) (d ∷ ds) = c == d && is_prefix cs ds

abbrev or_root : Text → Text
or_root [] = slash ∷ []
or_root (c ∷ cs) = c ∷ cs

-- The folder of a path: what stands before the last slash, or the root.
folder_of : Text → Text
unfolding last_index
folder_of abs =
    or_root (elim (last_index slash abs) [ none ↦ take (length abs - 1) abs | some i ↦ take i abs ])

pub rel_parent : (abs cwd : Text) → Text
unfolding folder_of
rel_parent abs cwd =
    let dir = folder_of abs in
    let root = if same cwd (slash ∷ []) then slash ∷ [] else cwd ++ slash ∷ [] in
    if same dir cwd then [] else if is_prefix root dir then drop (length root) dir else dir

-- A number in decimal digits; `fuel` bounds their number.
pub show_within : (fuel n : ℕ) → Text
show_within zero n = []
show_within (suc fuel) n =
    let high = show_within fuel (n / 10) in
    if ltb n 10 then (48 + n) ∷ [] else high ++ (48 + n % 10) ∷ []

unfoldable pub show : ℕ → Text
unfolding show_within
show n = show_within (n + 1) n

-- ` (n)`
pub number_tag : ℕ → Text
unfolding show
number_tag n = 32 ∷ 40 ∷ show n ++ 41 ∷ []

pub name_at : Option ℕ → Text → ℕ → Text
unfolding number_tag
name_at none name n = name ++ number_tag n
name_at (some zero) name n = name ++ number_tag n
name_at (some (suc i)) name n = take (suc i) name ++ number_tag n ++ drop (suc i) name

pub next_name : Text → ℕ → Text
unfolding name_at last_index
next_name name n = name_at (last_index dot name) name n

-- The extension that `kindOf` reads, before it is put in lower case: none where the only dot comes
-- first.
pub extension_at : Option ℕ → Text → Text
extension_at none name = []
extension_at (some zero) name = []
extension_at (some (suc i)) name = drop (suc i + 1) name

unfoldable pub extension : Text → Text
unfolding extension_at last_index
extension name = extension_at (last_index dot name) name
