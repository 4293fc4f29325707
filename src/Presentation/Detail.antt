-- ===== src/Presentation/Detail.antt =====
-- The panel of an event: EventDetailView of shspectr-web/src/presentation/web/event.rs.
use shellspectre.Base.{
  ℕ, Bool, true, false, Option, none, some, List, [], ◌∷◌, ◌++◌, ℤ, Map, Text, codes, map, replace,
  if◌then◌else◌, ltb, unwrap_or,
}
use shellspectre.Presentation.{
  ChildProcessView, ParentProcessView, tty_display, chunk_text, chunk_bytes, build_command_string,
  child_view, parent_view,
}
use shellspectre.Query.Parse.Print.{decimal, decimal_int}
use shellspectre.Reads.{EventDetail, IoChunk, map_option}
use shellspectre.Username.{resolve_uid}
use shellspectre.Wire.{EventType}

pub record EventDetailView : Type 0 where
  pub id : ℕ
  pub session_id : Text
  pub pid : Text
  pub ppid : Text
  pub uid : Text
  pub euid : Text
  pub gid : Text
  pub tty : Text
  pub full_command : Text
  pub event_type : EventType
  pub timestamp : Text
  pub exit_code : Text
  pub has_stdin : Bool
  pub stdin_html : Text
  pub stdin_bytes : ℕ
  pub has_stdout : Bool
  pub stdout_html : Text
  pub stdout_bytes : ℕ
  pub uid_raw : ℕ
  pub euid_raw : ℕ
  pub tty_nr_raw : Option ℕ
  pub exit_code_raw : Option ℤ
  pub children : List ChildProcessView
  pub parent : Option ParentProcessView

-- `format!("{} ({})", resolve_uid(uid), uid)`
user_text : Map Text → ℕ → Text
user_text users uid = resolve_uid users uid ++ (codes " (" ++ (decimal uid ++ codes ")"))

code_text : Option ℤ → Text
code_text none = 0x2014 ∷ []
code_text (some code) = decimal_int code

-- `d.tty_nr.filter(|&nr| nr > 0)`
positive_tty : Option ℕ → Option ℕ
positive_tty none = none
positive_tty (some nr) = if ltb 0 nr then some nr else none

has_chunks : List IoChunk → Bool
has_chunks [] = false
has_chunks (chunk ∷ chunks) = true

-- the text that `ansi_to_html` gives where the conversion fails
pub html_escaped : Text → Text
html_escaped raw =
    replace b'>' (codes "&gt;") (replace b'<' (codes "&lt;") (replace b'&' (codes "&amp;") raw))

-- `convert` is the converter of the package ansi_to_html; nothing is its error.
module _ (parse_json : Text → Option (List Text)) (convert : Text → Option Text)
    (users : Map Text) where
  -- `ansi_to_html`
  pub ansi_to_html : Text → Text
  unfolding html_escaped
  ansi_to_html raw = unwrap_or (convert raw) (html_escaped raw)

  -- `EventDetailView::from`
  pub detail_view : EventDetail → EventDetailView
  unfolding user_text code_text positive_tty has_chunks ansi_to_html
  detail_view d = record {
    id = d.summary.id;
    session_id = d.summary.session_id;
    pid = decimal d.summary.pid;
    ppid = decimal d.summary.ppid;
    uid = user_text users d.summary.uid;
    euid = user_text users d.summary.euid;
    gid = decimal d.gid;
    tty = tty_display d.tty_nr;
    full_command = build_command_string parse_json d.summary.argv d.summary.filename d.summary.comm;
    event_type = d.summary.event_type;
    timestamp = d.summary.timestamp;
    exit_code = code_text d.summary.exit_code;
    has_stdin = has_chunks d.stdin_data;
    stdin_html = ansi_to_html (chunk_text d.stdin_data);
    stdin_bytes = chunk_bytes d.stdin_data;
    has_stdout = has_chunks d.stdout_data;
    stdout_html = ansi_to_html (chunk_text d.stdout_data);
    stdout_bytes = chunk_bytes d.stdout_data;
    uid_raw = d.summary.uid;
    euid_raw = d.summary.euid;
    tty_nr_raw = positive_tty d.tty_nr;
    exit_code_raw = d.summary.exit_code;
    children = map (child_view parse_json) d.children;
    parent = map_option (parent_view parse_json) d.parent;
  }
