-- ===== src/LocalStore/SourcePath/Tests.antt =====
-- Paths that pass and fail the check, and the theorem at one that passes.
use lorelum.Prelude.{◌≡◌, refl, [], ◌∷◌, ◌++◌, Text, units, true, false, text_eq, any}
use lorelum.LocalStore.SourcePath.{is_practice_source_path, split_slash}
use lorelum.LocalStore.SourcePath.Safety.{follow, practice_source_path_confined}

abbrev nested : Text
nested = units "practices/react/hooks.md"

nested_checked : is_practice_source_path nested ≡ true
unfolding is_practice_source_path text_eq any
nested_checked = refl

climbing_refused : is_practice_source_path (units "practices/../x.md") ≡ false
unfolding is_practice_source_path text_eq any
climbing_refused = refl

reserved_refused : is_practice_source_path (units "practices/COM1.old/x.md") ≡ false
unfolding is_practice_source_path text_eq any
reserved_refused = refl

practice_source_path_confined_example :
    follow (units "root" ∷ []) (split_slash nested) ≡ (units "root" ∷ []) ++ split_slash nested
practice_source_path_confined_example =
    practice_source_path_confined nested (units "root" ∷ []) nested_checked
