-- ===== src/LocalStore/SourcePath/Safety.antt =====
-- A checked path stays below the folder that it is resolved in.
use mathlib.Core.List.{append_assoc, append-nil}
use lorelum.Prelude.{
  ◌≡◌, refl, ◌∙◌, List, [], ◌∷◌, ◌++◌, Bool, true, false, ◌&&◌, ◌||◌, Text, units, text_eq,
  text_eq_iff, any, All, if◌then◌else◌, arith,
}
use lorelum.LocalStore.SourcePath.{
  md_path, ends_in_md, matches_practice_path, split_slash, bad_segment, is_practice_source_path,
}

drop_last : List Text → List Text
drop_last [] = []
drop_last (s ∷ []) = []
drop_last (s ∷ t ∷ ss) = s ∷ drop_last (t ∷ ss)

-- How a file system follows the segments of a relative path from a folder: an empty segment and "."
-- stay, ".." goes to the folder above.
pub follow : List Text → List Text → List Text
unfolding drop_last
follow folder [] = folder
follow folder (s ∷ ss) =
    follow
      (if text_eq s [] || text_eq s (units ".")
        then folder
        else if text_eq s (units "..")
        then drop_last folder
        else folder ++ s ∷ [])
      ss

abbrev IsPlain : Text → Type 0
IsPlain s =
    (text_eq s [] ≡ false) × (text_eq s (units ".") ≡ false) × (text_eq s (units "..") ≡ false)

follow_plain : (folder ss : List Text) → All IsPlain ss → follow folder ss ≡ folder ++ ss
unfolding follow
follow_plain folder [] h = rw append-nil refl
follow_plain folder (s ∷ ss) ((a, b, c), h) =
    rw (a, b, c) (follow_plain (folder ++ s ∷ []) ss h ∙ append_assoc folder (s ∷ []) ss)

md_path-non_empty : (ss : List Text) → md_path ss ≡ true → All (λ s. text_eq s [] ≡ false) ss
unfolding md_path
md_path-non_empty [] h = tt
md_path-non_empty ([] ∷ []) h = unfold ends_in_md in ground arith
md_path-non_empty ((c ∷ cs) ∷ []) h = (unfold text_eq in refl, tt)
md_path-non_empty ([] ∷ t ∷ ss) h = ground arith
md_path-non_empty ((c ∷ cs) ∷ t ∷ ss) h = (unfold text_eq in refl, md_path-non_empty (t ∷ ss) h)

All-IsPlain :
    (ss : List Text)
    → All (λ s. text_eq s [] ≡ false) ss
    → any bad_segment ss ≡ false
    → All IsPlain ss
unfolding any bad_segment
All-IsPlain [] h k = tt
All-IsPlain (s ∷ ss) (e, h) k = ((e, ground arith, ground arith), All-IsPlain ss h (ground arith))

practice_path-IsPlain :
    (ss : List Text) → matches_practice_path ss ≡ true → any bad_segment ss ≡ false → All IsPlain ss
unfolding matches_practice_path any
practice_path-IsPlain [] h k = tt
practice_path-IsPlain (s ∷ ss) h k =
    let (a, b) = split_and (text_eq s (units "practices")) (md_path ss) h in
    let (e, rest) = split_or (bad_segment s) (any bad_segment ss) k in
    let named : s ≡ units "practices" = (text_eq_iff s (units "practices")).0 a in
    (rw named (unfold text_eq in (refl, refl, refl)), All-IsPlain ss (md_path-non_empty ss b) rest)
  where
    split_and : (x y : Bool) → (x && y) ≡ true → (x ≡ true) × (y ≡ true)
    split_and x y h = ground arith

    split_or : (x y : Bool) → (x || y) ≡ false → (x ≡ false) × (y ≡ false)
    split_or x y h = ground arith

-- A path that passes the check, followed segment by segment
-- from any folder, leads to that folder with exactly these segments added: no segment is empty, "."
-- or "..", so the path never goes up.
pub practice_source_path_confined :
    (path : Text) (folder : List Text)
    → is_practice_source_path path ≡ true
    → follow folder (split_slash path) ≡ folder ++ split_slash path
unfolding is_practice_source_path
practice_source_path_confined path folder h =
    follow_plain folder (split_slash path)
      (practice_path-IsPlain (split_slash path) (ground arith) (ground arith))
