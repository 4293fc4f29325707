-- ===== src/Presentation.antt =====
-- How an event is shown: shspectr-web/src/presentation/web/event.rs.
pub mod Detail
pub mod Texts
pub mod Shown
mod Tests
use shellspectre.Base.{
  ℕ, zero, ◌+◌, ◌-◌, ◌/◌, ◌%◌, ◌==◌, Bool, false, not, ◌&&◌, Option, none, some, List, [], ◌∷◌,
  ◌++◌, ℤ, pos, Map, Text, codes, all, is_empty, if◌then◌else◌, leb, ltb, length, take, unwrap_or,
  strip_prefix, split_once, split_by, contains_char, join, is_ascii_digit, char_len, utf8_len,
}
use shellspectre.Query.Parse.Print.{decimal, decimal_int}
use shellspectre.Reads.{EventSummary, IoChunk, ChildProcess, ParentProcess}
use shellspectre.Username.{resolve_uid}

-- `exit_code_display`
pub exit_code_display : Option ℤ → Text × Text
exit_code_display none = (0x2014 ∷ [], codes "text-gray-500")
exit_code_display (some (pos zero)) = (codes "0", codes "text-green-400")
exit_code_display (some code) = (decimal_int code, codes "text-red-400")

abbrev pub max_args_display_len : ℕ
max_args_display_len = 40

all_digits : Text → Bool
all_digits s = not (is_empty s) && all is_ascii_digit s

is_numbered : Option Text → Bool
unfolding all_digits
is_numbered none = false
is_numbered (some s) = all_digits s

tail_is_fd : Option (Text × Text) → Bool
unfolding is_numbered
tail_is_fd none = false
tail_is_fd (some (segment, tail)) = is_numbered (strip_prefix (codes "fd/") tail)

-- `is_fd_path`
pub is_fd_path : Text → Bool
unfolding tail_is_fd is_numbered
is_fd_path path = elim (strip_prefix (codes "/proc/") path) [
  | some rest ↦ tail_is_fd (split_once b'/' rest)
  | none ↦ is_numbered (strip_prefix (codes "/dev/fd/") path)
]

-- What is before the last slash with it, and what is behind it.
pub split_path : Text → Text × Text
split_path [] = ([], [])
split_path (c ∷ s) =
    let (dir, name) = split_path s in
    if contains_char b'/' s
    then (c ∷ dir, name)
    else if c == b'/'
    then (b'/' ∷ [], s)
    else ([], c ∷ s)

unfilled : Option Text → Option Text
unfilled none = none
unfilled (some []) = none
unfilled (some (c ∷ s)) = some (c ∷ s)

-- `argv.next().filter(|s| !s.is_empty())`
first_filled : List Text → Option Text
first_filled [] = none
first_filled (arg ∷ args) = if is_empty arg then none else some arg

-- `s.rsplit('/').next()`
basename : Text → Text
unfolding split_path
basename s = (split_path s).1

-- `truncate`
pub truncate : Text → ℕ → Text
truncate s max_len = if leb (length s) max_len then s else take (max_len - 1) s ++ 0x2026 ∷ []

abbrev push_char : ℕ → Option Text → Option Text
push_char c none = none
push_char c (some s) = some (c ∷ s)

-- `&s[..end]`, in bytes: nothing is the panic where `end` is out of range or inside a character
byte_prefix : ℕ → Text → Option Text
byte_prefix end [] = if end == 0 then some [] else none
byte_prefix end (c ∷ s) =
    let rest = byte_prefix (end - char_len c) s in
    if end == 0 then some [] else if leb (char_len c) end then push_char c rest else none

abbrev with_ellipsis : Option Text → Option Text
with_ellipsis none = none
with_ellipsis (some s) = some (s ++ 0x2026 ∷ [])

-- `session_id_short`: nothing is a panic
pub short_session_id : Text → Option Text
unfolding byte_prefix
short_session_id id = if ltb 10 (utf8_len id) then with_ellipsis (byte_prefix 10 id) else some id

is_dot : ℕ → Bool
is_dot c = c == b'.'

abbrev first_piece : Text → List Text → Text
first_piece s [] = s
first_piece s (piece ∷ pieces) = piece

-- `timestamp.split('.').next().unwrap_or(timestamp)`
short_timestamp : Text → Text
unfolding is_dot
short_timestamp s = first_piece s (split_by is_dot s)

pub record EventSummaryView : Type 0 where
  pub id : ℕ
  pub timestamp : Text
  pub session_id_short : Text
  pub session_id : Text
  pub user : Text
  pub comm : Text
  pub command_name : Text
  pub command_dir : Text
  pub command_args : Text
  pub command_full : Text
  pub exit_code : Text
  pub exit_code_class : Text
  pub uid : ℕ
  pub exit_code_raw : Option ℤ

pub record ChildProcessView : Type 0 where
  pub id : ℕ
  pub pid : ℕ
  pub command : Text
  pub exit_code : Text
  pub exit_code_class : Text
  pub has_io : Bool

pub record ParentProcessView : Type 0 where
  pub id : ℕ
  pub command : Text

-- `(nr >> 8) & 0xFF` and `nr & 0xFF`
tty_name : ℕ → Text
tty_name nr =
    let major = (nr / 256) % 256 in
    let minor = nr % 256 in
    if major == 136
    then codes "pts/" ++ decimal minor
    else decimal major ++ (codes "/" ++ decimal minor)

-- The `tty` of the detail view.
pub tty_display : Option ℕ → Text
unfolding tty_name
tty_display none = 0x2014 ∷ []
tty_display (some nr) = if ltb 0 nr then tty_name nr else 0x2014 ∷ []

-- The data of the chunks in a row, and the sum of their counts.
pub chunk_text : List IoChunk → Text
chunk_text [] = []
chunk_text (chunk ∷ chunks) = chunk.payload ++ chunk_text chunks

pub chunk_bytes : List IoChunk → ℕ
chunk_bytes [] = 0
chunk_bytes (chunk ∷ chunks) = chunk.byte_count + chunk_bytes chunks

-- `parse_json` is `serde_json::from_str::<Vec<String>>`.
module _ (parse_json : Text → Option (List Text)) where
  parsed_argv : Option Text → Option (List Text)
  parsed_argv none = none
  parsed_argv (some text) = parse_json text

  -- `parse_argv0`
  pub parse_argv0 : Option Text → Option Text
  unfolding first_filled parsed_argv
  parse_argv0 argv = elim (parsed_argv argv) [ none ↦ none | some args ↦ first_filled args ]

  command_of_args : List Text → Option Text → Option Text → Text
  command_of_args (arg ∷ args) filename comm = join (codes " ") (arg ∷ args)
  command_of_args [] (some filename) comm = filename
  command_of_args [] none comm = unwrap_or comm []

  -- `build_command_string` and `build_child_command_string`
  pub build_command_string : Option Text → Option Text → Option Text → Text
  unfolding command_of_args parsed_argv
  build_command_string argv filename comm =
      command_of_args (unwrap_or (parsed_argv argv) []) filename comm

  tail_of_args : List Text → Text
  tail_of_args [] = []
  tail_of_args (arg ∷ args) = join (codes " ") args

  -- `parse_args_tail`
  pub parse_args_tail : EventSummary → Text
  unfolding tail_of_args parsed_argv
  parse_args_tail s = tail_of_args (unwrap_or (parsed_argv s.argv) [])

  -- `filename_ref.or_else(|| parse_argv0(argv).and(argv)).unwrap_or("")`
  pub full_path : Option Text → Option Text → Text
  full_path (some filename) argv = filename
  full_path none argv = elim (parse_argv0 argv) [ none ↦ [] | some arg ↦ unwrap_or argv [] ]

  name_of_path : Text → Text → Text × Text
  unfolding split_path
  name_of_path path comm =
      if contains_char b'/' path
      then split_path path
      else ([], if is_empty path then comm else path)

  name_of_fd : Option Text → Text → Text
  unfolding basename
  name_of_fd none comm = comm
  name_of_fd (some arg) comm = basename arg

  path_is_fd : Option Text → Bool
  unfolding is_fd_path
  path_is_fd none = false
  path_is_fd (some path) = is_fd_path path

  -- `(command_dir, command_name)`
  pub command_parts : EventSummary → Text → Text × Text
  unfolding unfilled path_is_fd name_of_fd name_of_path full_path
  command_parts s comm =
      let filename = unfilled s.filename in
      if path_is_fd filename
      then (unwrap_or filename [], name_of_fd (parse_argv0 s.argv) comm)
      else name_of_path (full_path filename s.argv) comm

  view_with : Map Text → EventSummary → Text → EventSummaryView
  unfolding command_parts truncate parse_args_tail short_timestamp exit_code_display
  view_with users s short =
      let comm = unwrap_or s.comm (0x2014 ∷ []) in
      let (dir, name) = command_parts s comm in
      let args = truncate (parse_args_tail s) max_args_display_len in
      let (code, class) = exit_code_display s.exit_code in
      record {
        id = s.id;
        timestamp = short_timestamp s.timestamp;
        session_id_short = short;
        session_id = s.session_id;
        user = resolve_uid users s.uid;
        comm = comm;
        command_name = name;
        command_dir = dir;
        command_args = args;
        command_full = if is_empty args then name else name ++ (codes " " ++ args);
        exit_code = code;
        exit_code_class = class;
        uid = s.uid;
        exit_code_raw = s.exit_code;
      }

  view_of_short : Map Text → EventSummary → Option Text → Option EventSummaryView
  unfolding view_with
  view_of_short users s none = none
  view_of_short users s (some short) = some (view_with users s short)

  -- `EventSummaryView::from`: nothing is a panic
  pub summary_view : Map Text → EventSummary → Option EventSummaryView
  unfolding view_of_short short_session_id
  summary_view users s = view_of_short users s (short_session_id s.session_id)

  -- `ChildProcessView::from`
  pub child_view : ChildProcess → ChildProcessView
  unfolding build_command_string exit_code_display
  child_view c =
      let (code, class) = exit_code_display c.exit_code in
      record {
        id = c.id;
        pid = c.pid;
        command = build_command_string c.argv c.filename c.comm;
        exit_code = code;
        exit_code_class = class;
        has_io = c.has_io;
      }

  -- `ParentProcessView::from`
  pub parent_view : ParentProcess → ParentProcessView
  unfolding build_command_string
  parent_view p = record { id = p.id; command = build_command_string p.argv p.filename p.comm }
