-- ===== src/Files/Kinds/Tests.antt =====
-- Kinds and icons of concrete names.
use vibetop.Base.{◌≡◌, refl, false, codes, same, lookup}
use vibetop.Files.Kinds.{kind_of, icon_for, box}

kind_of_archive : kind_of (codes "notes.tar.GZ") false ≡ codes "gzip archive"
unfolding kind_of same lookup
kind_of_archive = refl

kind_of_hidden : kind_of (codes ".profile") false ≡ codes "File"
unfolding kind_of same lookup
kind_of_hidden = refl

kind_of_unknown : kind_of (codes "a.xyz") false ≡ codes "XYZ file"
unfolding kind_of same lookup
kind_of_unknown = refl

icon_for_archive : icon_for (codes "a.TGZ") false ≡ box
unfolding icon_for
icon_for_archive = refl
