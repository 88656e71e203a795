-- ===== src/LocalStore/Canonical.antt =====
-- packages/engine/src/local-store/model/canonical-practice.ts: the canonical form of a Practice.
-- `JSON.stringify` and SHA-256 are parameters.
mod Tests
use lorelum.Prelude.{
  ℕ, ◌≡◌, ◌≢◌, refl, ◌==◌, List, [], ◌∷◌, map, Bool, true, false, ◌&&◌, Option, none, some, Text,
  units, All, arith, if◌then◌else◌,
}

pub record AntiPattern : Type 0 where
  pub id : Text
  pub name : Text
  pub description : Text
  pub severity : Option Text

pub record Practice : Type 0 where
  pub id : Text
  pub title : Text
  pub stage : Text
  pub tech_stack : List Text
  pub applies_when : Text
  pub severity : Option Text
  pub body : Option Text
  pub anti_patterns : Option (List AntiPattern)

-- `value.replace(/\r\n?/g, "\n")`; the flag says that a carriage return was just replaced.
normalize_from : Bool → Text → Text
normalize_from cr [] = []
normalize_from cr (c ∷ cs) =
    if c == 13
    then 10 ∷ normalize_from true cs
    else if cr && c == 10
    then normalize_from false cs
    else c ∷ normalize_from false cs

unfoldable pub normalize_line_endings : Text → Text
unfolding normalize_from
normalize_line_endings value = normalize_from false value

abbrev or_warn : Option Text → Option Text
or_warn none = some (units "warn")
or_warn (some s) = some s

abbrev or_empty : Option Text → Text
or_empty none = []
or_empty (some t) = t

normalize_all : List Text → List Text
normalize_all [] = []
normalize_all (t ∷ ts) = normalize_line_endings t ∷ normalize_all ts

canonical_anti_patterns : List AntiPattern → List AntiPattern
canonical_anti_patterns [] = []
canonical_anti_patterns (a ∷ as') =
    record {
      id = normalize_line_endings a.id;
      name = normalize_line_endings a.name;
      description = normalize_line_endings a.description;
      severity = or_warn a.severity;
    }
    ∷ canonical_anti_patterns as'

abbrev or_none_listed : Option (List AntiPattern) → List AntiPattern
or_none_listed none = []
or_none_listed (some xs) = xs

unfoldable pub canonical_practice_object : Practice → Practice
unfolding normalize_line_endings normalize_all canonical_anti_patterns
canonical_practice_object p = record {
  id = normalize_line_endings p.id;
  title = normalize_line_endings p.title;
  stage = normalize_line_endings p.stage;
  tech_stack = normalize_all p.tech_stack;
  applies_when = normalize_line_endings p.applies_when;
  severity = or_warn p.severity;
  body = some (normalize_line_endings (or_empty p.body));
  anti_patterns = some (canonical_anti_patterns (or_none_listed p.anti_patterns));
}

pub record CanonicalPractice : Type 0 where
  pub practice : Practice
  pub canonical_content : Text
  pub content_digest : Text

unfoldable pub canonicalize_practice :
    (Practice → Text) → (Text → Text) → Practice → CanonicalPractice
canonicalize_practice stringify sha256 p = record {
  practice = canonical_practice_object p;
  canonical_content = stringify (canonical_practice_object p);
  content_digest = sha256 (stringify (canonical_practice_object p));
}

-- No carriage return.
abbrev Unix : Text → Type 0
Unix = All (λ c. c ≢ 13)

normalize_from-Unix : (cr : Bool) (t : Text) → Unix (normalize_from cr t)
unfolding normalize_from
normalize_from-Unix cr [] = tt
normalize_from-Unix cr (c ∷ cs) =
    ground (arith, normalize_from-Unix true cs, normalize_from-Unix false cs)

normalize_from_of_Unix : (t : Text) → Unix t → normalize_from false t ≡ t
unfolding normalize_from
normalize_from_of_Unix [] h = refl
normalize_from_of_Unix (c ∷ cs) (k, h) = ground (arith, normalize_from_of_Unix cs h)

normalize_idem :
    (t : Text) → normalize_line_endings (normalize_line_endings t) ≡ normalize_line_endings t
unfolding normalize_line_endings
normalize_idem t = normalize_from_of_Unix (normalize_from false t) (normalize_from-Unix false t)

normalize_all_idem : (ts : List Text) → normalize_all (normalize_all ts) ≡ normalize_all ts
unfolding normalize_all
normalize_all_idem [] = refl
normalize_all_idem (t ∷ ts) = cc (normalize_idem t, normalize_all_idem ts)

or_warn_idem : (s : Option Text) → or_warn (or_warn s) ≡ or_warn s
or_warn_idem none = refl
or_warn_idem (some s) = refl

anti_patterns_idem :
    (xs : List AntiPattern)
    → canonical_anti_patterns (canonical_anti_patterns xs) ≡ canonical_anti_patterns xs
unfolding canonical_anti_patterns
anti_patterns_idem [] = refl
anti_patterns_idem (a ∷ xs) = rw (
  normalize_idem a.id,
  normalize_idem a.name,
  normalize_idem a.description,
  or_warn_idem a.severity,
  anti_patterns_idem xs,
)

canonical_practice_object_idem :
    (p : Practice)
    → canonical_practice_object (canonical_practice_object p) ≡ canonical_practice_object p
unfolding canonical_practice_object
canonical_practice_object_idem p = λ i. record {
  id = normalize_idem p.id i;
  title = normalize_idem p.title i;
  stage = normalize_idem p.stage i;
  tech_stack = normalize_all_idem p.tech_stack i;
  applies_when = normalize_idem p.applies_when i;
  severity = or_warn_idem p.severity i;
  body = some (normalize_idem (or_empty p.body) i);
  anti_patterns = some (anti_patterns_idem (or_none_listed p.anti_patterns) i);
}

-- Canonicalizing the practice that a canonical form keeps gives the same form again, content and
-- digest included.
pub canonicalize_practice_idem :
    (stringify : Practice → Text) (sha256 : Text → Text) (p : Practice)
    → canonicalize_practice stringify sha256 (canonicalize_practice stringify sha256 p).practice
      ≡ canonicalize_practice stringify sha256 p
unfolding canonicalize_practice
canonicalize_practice_idem stringify sha256 p = λ i. record {
  practice = canonical_practice_object_idem p i;
  canonical_content = stringify (canonical_practice_object_idem p i);
  content_digest = sha256 (stringify (canonical_practice_object_idem p i));
}
