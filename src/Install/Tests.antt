-- ===== src/Install/Tests.antt =====
-- The extraction of a small tree of templates.
use weverywhere.Prelude.{◌≡◌, refl, true, [], ◌∷◌, none}
use weverywhere.Prelude.Utf8.{codes}
use weverywhere.Install.{
  Entries, dir, file, nil, cons, Extracted, leaf_name, extract_entries, write_list, layout_all,
  extract_entries_lem,
}

abbrev templates : Entries
templates =
    cons (file (codes "weverywhere.toml") (1 ∷ []))
      (cons (dir (codes "sub") (cons (file (codes "sub/a.toml") (2 ∷ [])) nil)) nil)

abbrev before : Extracted
before = record { files = λ p. none; count = 0; ok = true }

extract_entries_lem_example :
    extract_entries (λ p. true) (λ p. true) templates (codes "/etc") before
    ≡ write_list (λ p. true) (λ p. true) (layout_all templates (codes "/etc")) before
extract_entries_lem_example =
    extract_entries_lem (λ p. true) (λ p. true) (λ p. refl) templates (codes "/etc") before refl

leaf : leaf_name (codes "sub/a.toml") ≡ codes "a.toml"
unfolding leaf_name
leaf = refl

paths :
    layout_all templates (codes "/etc")
    ≡ (codes "/etc/weverywhere.toml", 1 ∷ []) ∷ (codes "/etc/sub/a.toml", 2 ∷ []) ∷ []
unfolding layout_all leaf_name
paths = refl
