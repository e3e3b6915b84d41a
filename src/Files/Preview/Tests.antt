-- ===== src/Files/Preview/Tests.antt =====
-- A preview over concrete replies, and the theorem there.
use vibetop.Base.{◌≡◌, refl, none, some, [], ◌∷◌, same, codes}
use vibetop.Files.Paths.{show}
use vibetop.Files.Preview.{Watch, Stat, preview_reload, bust_url, scroll_after_reload}

abbrev watch : Watch
watch = record { path = 97 ∷ []; mtime = 5; size = 10 }

abbrev newer : Stat
newer = record { mtime = 6; size = 12 }

-- A late reply about another file asks for nothing.
late : preview_reload (some watch) (98 ∷ []) (some newer) ≡ none
unfolding preview_reload same
late = refl

busted : bust_url (codes "/raw?p=a") (some 6) ≡ codes "/raw?p=a&v=6"
unfolding bust_url show
busted = refl

-- One who is at the end stays there while the file grows.
at_end :
    scroll_after_reload
      (record { top = 400; client_h = 100; scroll_h = 500 })
      (record { top = 0; client_h = 100; scroll_h = 900 })
    ≡ 800
unfolding scroll_after_reload
at_end = refl
