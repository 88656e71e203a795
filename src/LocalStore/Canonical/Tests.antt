-- ===== src/LocalStore/Canonical/Tests.antt =====
-- A canonical form, and its theorem at a concrete practice.
use lorelum.Prelude.{◌≡◌, refl, [], ◌∷◌, ◌++◌, none, some, Text, units}
use lorelum.LocalStore.Canonical.{
  Practice, normalize_line_endings, canonicalize_practice, canonicalize_practice_idem,
}

-- "a", CR LF, "b", CR, "c".
abbrev windows_text : Text
windows_text = b'a' ∷ 13 ∷ 10 ∷ b'b' ∷ 13 ∷ b'c' ∷ []

windows_text_normal : normalize_line_endings windows_text ≡ b'a' ∷ 10 ∷ b'b' ∷ 10 ∷ b'c' ∷ []
unfolding normalize_line_endings
windows_text_normal = refl

abbrev sample : Practice
sample = record {
  id = units "p";
  title = units "t";
  stage = units "s";
  tech_stack = [];
  applies_when = windows_text;
  severity = none;
  body = some windows_text;
  anti_patterns = none;
}

-- A stand-in for the content: the two texts that carry line endings, one after the other.
abbrev joined : Practice → Text
joined p = p.title ++ p.applies_when

canonicalize_practice_idem_example :
    canonicalize_practice joined (λ t. t) (canonicalize_practice joined (λ t. t) sample).practice
    ≡ canonicalize_practice joined (λ t. t) sample
canonicalize_practice_idem_example = canonicalize_practice_idem joined (λ t. t) sample
