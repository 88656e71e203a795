-- ===== src/Services/Sessions/Tests.antt =====
-- Runs of the session service, and its theorem at concrete windows.
use lorelum.Prelude.{
  ℕ, ◌≡◌, ◌⊎◌, refl, Bool, true, false, Option, none, some, List, [], ◌∷◌, ◌++◌, ◌==◌, Text, units,
  keep, ltb, length, if◌then◌else◌,
}
use lorelum.Services.Sessions.{
  ok, err, claude, codex, ShellToolEvent, pre, post, shell, ActiveWindow, Platform, invalid_request,
  is_live, route_tool_event, resolve, session_directory,
}
use lorelum.Services.Sessions.Nearest.{IsResolved, resolve_nearest}

-- A stand-in for Node's functions: paths are plain, and the child relative to a parent is what is left
-- of it, or `..` where it does not begin with the parent.
abbrev below : Text → Text → Text
below [] child = child
below (c ∷ cs) [] = units ".."
below (c ∷ cs) (d ∷ ds) = if c == d then below cs ds else units ".."

abbrev plain_path : Text → List Text → Text
plain_path base [] = base
plain_path base (part ∷ parts) = plain_path (base ++ 47 ∷ part) parts

abbrev platform : Platform
platform = record {
  byte_length = λ t. length t;
  is_well_formed = λ t. true;
  is_absolute = λ t. false;
  resolve_path = plain_path;
  relative = below;
  separator = 47;
}

abbrev absolute : Platform
absolute = record platform { is_absolute = λ t. ltb 0 (length t) }

abbrev began : Text → Text → ℕ → ActiveWindow
began session cwd time = record {
  host_key = claude;
  session_id = session;
  tool_use_id = units "1";
  cwd = cwd;
  started_at = time;
}

abbrev tool_event : ShellToolEvent
tool_event = record {
  host_key = claude;
  event = pre;
  tool_kind = shell;
  session_id = units "s";
  tool_use_id = units "1";
  cwd = units "/w";
}

abbrev windows : List ActiveWindow
windows =
    began (units "old") (units "/w/a") 0
    ∷ began (units "outer") (units "/w") 1000000
    ∷ began (units "inner") (units "/w/a") 1000000
    ∷ began (units "later") (units "/w/a") 1000001
    ∷ []

routes :
    (route_tool_event absolute tool_event 5 [] ≡ ok (began (units "s") (units "/w") 5 ∷ []))
    × (route_tool_event absolute
          (record tool_event { event = post })
          6
          (began (units "s") (units "/w") 5 ∷ [])
        ≡ ok [])
    × (route_tool_event absolute (record tool_event { session_id = units "a/b" }) 6 []
        ≡ err invalid_request)
unfolding route_tool_event lorelum.Prelude.text_eq lorelum.Prelude.any keep
routes = (refl, refl, refl)

resolves :
    ((resolve platform (units "/w/a/x") none 1800000 windows).0
      ≡ some (record { host_key = claude; session_id = units "later" }))
    × ((resolve platform (units "/v") none 1800000 windows).0 ≡ none)
    × ((resolve platform
          (units "/v")
          (some (record { host_key = codex; session_id = units "mine" }))
          1800000
          windows).0
        ≡ some (record { host_key = codex; session_id = units "mine" }))
unfolding resolve lorelum.Prelude.sort keep lorelum.Prelude.text_eq lorelum.Prelude.any
resolves = (refl, refl, refl)

directory :
    (session_directory platform
        (units "/s")
        (record { host_key = codex; session_id = units "mine" })
      ≡ ok (units "/s/codex/mine"))
    × (session_directory platform
          (units "/s")
          (record { host_key = codex; session_id = units ".." })
        ≡ err invalid_request)
unfolding session_directory lorelum.Prelude.text_eq lorelum.Prelude.any
directory = (refl, refl)

-- An id that is not valid counts for nothing.
resolve_nearest_example : IsResolved platform (units "/w/a/x") 1800000 windows (
    resolve platform
      (units "/w/a/x")
      (some (record { host_key = codex; session_id = units "a/b" }))
      1800000
      windows)
unfolding lorelum.Services.Sessions.session_id_valid lorelum.Prelude.text_eq lorelum.Prelude.any
resolve_nearest_example =
    resolve_nearest platform (units "/w/a/x")
      (some (record { host_key = codex; session_id = units "a/b" })) 1800000 windows refl
