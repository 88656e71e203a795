-- ===== src/Services/Sessions.antt =====
-- packages/backend/src/modules/sessions: service.ts and the schemas of model.ts. The service tells
-- which host session runs a command, by the shell tools that are running. Parameters are Node's path
-- functions and UTF-8; the time is an argument. A window's key is JSON text of three strings, which
-- are equal exactly where the texts are.
pub mod Nearest
pub mod Windows
mod Tests
pub use lorelum.Prelude.{ok, err, ◌>>=◌, ◌>>◌, refuse}
use lorelum.Prelude.{
  Fallible, ℕ, ◌-◌, ◌*◌, Bool, true, false, not, ◌&&◌, ◌||◌, Option, none, some, List, [], ◌∷◌, ltb,
  leb, ◌==◌, if◌then◌else◌, Text, units, text_eq, keep, any, length, is_empty, sort,
}

abbrev pub window_lifetime_ms : ℕ
window_lifetime_ms = 1800000

pub data HostKey : Type 0 where
  claude codex cursor workbuddy zcode omp : HostKey

abbrev pub host_name : HostKey → Text
host_name claude = units "claude"
host_name codex = units "codex"
host_name cursor = units "cursor"
host_name workbuddy = units "workbuddy"
host_name zcode = units "zcode"
host_name omp = units "omp"

pub record SessionRef : Type 0 where
  pub host_key : HostKey
  pub session_id : Text

pub data ToolMoment : Type 0 where
  pre post : ToolMoment

pub data ToolKind : Type 0 where
  shell other_tool : ToolKind

pub record ShellToolEvent : Type 0 where
  pub host_key : HostKey
  pub event : ToolMoment
  pub tool_kind : ToolKind
  pub session_id : Text
  pub tool_use_id : Text
  pub cwd : Text

pub record ActiveWindow : Type 0 where
  pub host_key : HostKey
  pub session_id : Text
  pub tool_use_id : Text
  pub cwd : Text
  pub started_at : ℕ

pub record Platform : Type 0 where
  pub byte_length : Text → ℕ
  pub is_well_formed : Text → Bool
  pub is_absolute : Text → Bool
  pub resolve_path : Text → List Text → Text
  pub relative : Text → Text → Text
  pub separator : ℕ

pub data BackendError : Type 0 where
  invalid_request : BackendError

unfoldable pub session_id_valid : Platform → Text → Bool
session_id_valid p id =
    not (is_empty id)
    && leb (p.byte_length id) 120
    && p.is_well_formed id
    && not (text_eq id (46 ∷ []))
    && not (text_eq id (46 ∷ 46 ∷ []))
    && not (any (λ c. c == 92 || c == 47 || c == 0) id)

unfoldable pub event_valid : Platform → ShellToolEvent → Bool
unfolding session_id_valid
event_valid p e =
    session_id_valid p e.session_id
    && ltb 0 (length e.tool_use_id)
    && leb (length e.tool_use_id) 256
    && ltb 0 (length e.cwd)
    && leb (length e.cwd) 4096
    && p.is_absolute e.cwd

unfoldable pub same_key : ShellToolEvent → ActiveWindow → Bool
same_key e w =
    text_eq (host_name e.host_key) (host_name w.host_key)
    && text_eq e.session_id w.session_id
    && text_eq e.tool_use_id w.tool_use_id

abbrev pub starts_up : ℕ → Text → Bool
starts_up separator [] = false
starts_up separator (c ∷ []) = false
starts_up separator (c ∷ d ∷ []) = false
starts_up separator (c ∷ d ∷ e ∷ rest) = c == 46 && d == 46 && e == separator

unfoldable pub is_within : Platform → Text → Text → Bool
is_within p parent child =
    let difference = p.relative parent child in
    not (text_eq difference (46 ∷ 46 ∷ []))
    && not (starts_up p.separator difference)
    && not (p.is_absolute difference)

unfoldable pub is_live : ℕ → ActiveWindow → Bool
is_live time w = not (ltb time w.started_at) && ltb (time - w.started_at) window_lifetime_ms

unfoldable pub prune_windows : ℕ → List ActiveWindow → List ActiveWindow
unfolding is_live
prune_windows time windows = keep (is_live time) windows

-- `windows.set`: a key that is there keeps its place.
unfoldable pub set_window : ShellToolEvent → ActiveWindow → List ActiveWindow → List ActiveWindow
unfolding same_key
set_window e w [] = w ∷ []
set_window e w (v ∷ vs) = let rest = set_window e w vs in if same_key e v then w ∷ vs else v ∷ rest

abbrev pub window_of : Platform → ShellToolEvent → ℕ → ActiveWindow
window_of p e time = record {
  host_key = e.host_key;
  session_id = e.session_id;
  tool_use_id = e.tool_use_id;
  cwd = p.resolve_path e.cwd [];
  started_at = time;
}

abbrev pub after_event :
    Platform → ShellToolEvent → ℕ → ToolMoment → List ActiveWindow → List ActiveWindow
after_event p e time pre windows = set_window e (window_of p e time) windows
after_event p e time post windows = keep (λ w. not (same_key e w)) windows

unfoldable pub route_tool_event :
    Platform → ShellToolEvent → ℕ → List ActiveWindow → Fallible BackendError (List ActiveWindow)
unfolding event_valid prune_windows set_window same_key
route_tool_event p e time windows = do
  refuse (not (event_valid p e)) invalid_request
  ok (elim e.tool_kind [
    | other_tool ↦ windows
    | shell ↦ after_event p e time e.event (prune_windows time windows)
  ])

-- `compare(left, right) < 0`: the longer directory, and then the later start.
unfoldable pub nearer : ActiveWindow → ActiveWindow → Bool
nearer left right =
    ltb (length right.cwd) (length left.cwd)
    || (length right.cwd == length left.cwd && ltb right.started_at left.started_at)

abbrev pub first_session : List ActiveWindow → Option SessionRef
first_session [] = none
first_session (w ∷ ws) = some (record { host_key = w.host_key; session_id = w.session_id })

-- `resolve` without a session given, or with one that is not valid: the answer and the windows left.
unfoldable pub resolve_window :
    Platform → Text → ℕ → List ActiveWindow → Option SessionRef × List ActiveWindow
unfolding prune_windows is_within nearer
resolve_window p cwd time windows =
    let left = prune_windows time windows in
    (first_session (sort nearer (keep (λ w. is_within p w.cwd (p.resolve_path cwd [])) left)), left)

unfoldable pub resolve :
    Platform
    → Text
    → Option SessionRef
    → ℕ
    → List ActiveWindow
    → Option SessionRef × List ActiveWindow
unfolding resolve_window session_id_valid
resolve p cwd none time windows = resolve_window p cwd time windows
resolve p cwd (some s) time windows =
    if session_id_valid p s.session_id then (some s, windows) else resolve_window p cwd time windows

unfoldable pub session_directory : Platform → Text → SessionRef → Fallible BackendError Text
unfolding session_id_valid is_within
session_directory p sessions_directory s = do
  refuse (not (session_id_valid p s.session_id)) invalid_request
  let directory = p.resolve_path sessions_directory (host_name s.host_key ∷ s.session_id ∷ [])
  refuse (not (is_within p sessions_directory directory) || text_eq directory sessions_directory)
      invalid_request
  ok directory
