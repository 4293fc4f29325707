-- ===== src/Presentation/Shown.antt =====
-- What the views show of an event.
use shellspectre.Base.{
  ℕ, ◌≡◌, Bool, true, false, some, [], ◌++◌, Text, ltb, none, ◌⊎◌, contains_char,
}
use shellspectre.Presentation.{is_fd_path, EventSummaryView}
use shellspectre.Reads.{EventSummary}

-- Characters of one byte.
abbrev is_ascii : ℕ → Bool
is_ascii c = ltb c 0x80

-- How the file of an event is shown.
pub data ShownFile (s : EventSummary) (view : EventSummaryView) : Type 0 where
  unnamed : (s.filename ≡ none) ⊎ (s.filename ≡ some []) → ShownFile s view
  descriptor :
      (path : Text)
      → s.filename ≡ some path
      → is_fd_path path ≡ true
      → view.command_dir ≡ path
      → ShownFile s view
  plain :
      (path : Text)
      → s.filename ≡ some path
      → is_fd_path path ≡ false
      → contains_char b'/' path ≡ false
      → view.command_dir ≡ []
      → view.command_name ≡ path
      → ShownFile s view
  whole_path :
      (path : Text)
      → s.filename ≡ some path
      → is_fd_path path ≡ false
      → contains_char b'/' path ≡ true
      → view.command_dir ++ view.command_name ≡ path
      → contains_char b'/' view.command_name ≡ false
      → ShownFile s view
