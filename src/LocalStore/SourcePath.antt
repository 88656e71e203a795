-- ===== src/LocalStore/SourcePath.antt =====
-- packages/engine/src/local-store/model/candidate.ts: the check of a Practice's path in its Pack.
pub mod Safety
mod Tests
use lorelum.Prelude.{
  ℕ, ◌+◌, ◌==◌, leb, List, [], ◌∷◌, Bool, true, false, not, ◌&&◌, ◌||◌, Text, units, text_eq, any,
  contains, if◌then◌else◌,
}

-- A text in front of the first of the segments.
pub begin : ℕ → List Text → List Text
begin c [] = (c ∷ []) ∷ []
begin c (s ∷ ss) = (c ∷ s) ∷ ss

-- `path.split("/")`
pub split_slash : Text → List Text
split_slash [] = [] ∷ []
split_slash (c ∷ cs) = let rest = split_slash cs in if c == b'/' then [] ∷ rest else begin c rest

-- `segment.split(".", 1)[0]`
before_dot : Text → Text
before_dot [] = []
before_dot (c ∷ cs) = let rest = before_dot cs in if c == b'.' then [] else c ∷ rest

-- `toLowerCase`, as far as its result can be ASCII: the capitals and the Kelvin sign.
lower : Text → Text
lower [] = []
lower (c ∷ cs) =
    (if leb b'A' c && leb c b'Z' then c + 32 else if c == 8490 then b'k' else c) ∷ lower cs

abbrev digit_from_one : ℕ → Bool
digit_from_one c = leb b'1' c && leb c b'9'

-- `/^com[1-9]$/` and `/^lpt[1-9]$/`
is_port : Text → Text → Bool
is_port (a ∷ b ∷ c ∷ []) (x ∷ y ∷ z ∷ d ∷ []) = a == x && b == y && c == z && digit_from_one d
is_port _ _ = false

pub is_windows_reserved_path_segment : Text → Bool
is_windows_reserved_path_segment segment =
    let base_name = lower (before_dot segment) in
    text_eq base_name (units "con")
    || text_eq base_name (units "prn")
    || text_eq base_name (units "aux")
    || text_eq base_name (units "nul")
    || text_eq base_name (units "clock$")
    || is_port (units "com") base_name
    || is_port (units "lpt") base_name

pub has_control_character : Text → Bool
has_control_character value = any (λ c. leb c 31 || c == 127) value

-- `[^/]+\.md`
ends_in_md : Text → Bool
ends_in_md (a ∷ b ∷ c ∷ d ∷ []) = b == b'.' && c == b'm' && d == b'd'
ends_in_md (a ∷ cs) = ends_in_md cs
ends_in_md [] = false

abbrev non_empty : Text → Bool
non_empty [] = false
non_empty (c ∷ cs) = true

-- `(?:[^/]+\/)*[^/]+\.md` over the segments.
pub md_path : List Text → Bool
md_path [] = false
md_path (s ∷ []) = ends_in_md s
md_path (s ∷ t ∷ ss) = non_empty s && md_path (t ∷ ss)

pub matches_practice_path : List Text → Bool
matches_practice_path [] = false
matches_practice_path (s ∷ ss) = text_eq s (units "practices") && md_path ss

-- The characters that a file name may not have on Windows, `/` aside.
forbidden : ℕ → Bool
forbidden c =
    c == 92 || c == b':' || c == b'*' || c == b'<' || c == b'>' || c == b'|' || c == 34 || c == 63

pub bad_segment : Text → Bool
bad_segment segment =
    text_eq segment (units ".")
    || text_eq segment (units "..")
    || is_windows_reserved_path_segment segment

unfoldable pub is_practice_source_path : Text → Bool
unfolding split_slash begin before_dot lower is_port is_windows_reserved_path_segment
    has_control_character ends_in_md md_path matches_practice_path forbidden bad_segment
is_practice_source_path path =
    matches_practice_path (split_slash path)
    && not (any forbidden path)
    && not (has_control_character path)
    && not (any bad_segment (split_slash path))
