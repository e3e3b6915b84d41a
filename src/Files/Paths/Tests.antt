-- ===== src/Files/Paths/Tests.antt =====
-- Paths and names at concrete inputs, and the theorems there.
use vibetop.Base.{◌≡◌, refl, none, some, codes, same}
use vibetop.Files.Paths.{norm_path, rel_parent, next_name}

from_home :
    norm_path (codes " ~/a/../b/ ") (some (codes "/x")) (some (codes "/home/me"))
    ≡ some (codes "/home/me/b")
unfolding norm_path same
from_home = refl

from_folder : norm_path (codes "./c") (some (codes "/x")) none ≡ some (codes "/x/c")
unfolding norm_path same
from_folder = refl

above_root : norm_path (codes "/../..") none none ≡ some (codes "/")
unfolding norm_path same
above_root = refl

blank : norm_path (codes "  ") none none ≡ none
unfolding norm_path same
blank = refl

deeper : rel_parent (codes "/a/b/c.txt") (codes "/a") ≡ codes "b"
unfolding rel_parent same
deeper = refl

numbered : next_name (codes "report.txt") 12 ≡ codes "report (12).txt"
unfolding next_name
numbered = refl
