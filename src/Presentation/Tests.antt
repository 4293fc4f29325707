-- ===== src/Presentation/Tests.antt =====
-- An event of bash.
use shellspectre.Base.{◌≡◌, refl, Option, none, some, List, [], ◌∷◌, Text, codes}
use shellspectre.Presentation.{full_path, parse_argv0}
use shellspectre.Reads.{EventSummary}
use shellspectre.Wire.{exec}

abbrev bash_event : EventSummary
bash_event = record {
  id = 7;
  timestamp = codes "2026-01-01 00:00:00.5";
  session_id = codes "ox_aaaa1111";
  event_type = exec;
  execution_id = 0;
  pid = 42;
  ppid = 1;
  uid = 1000;
  euid = 1000;
  comm = some (codes "bash");
  filename = some (codes "/bin/bash");
  argv = none;
  exit_code = none;
}

-- JSON that is never a list of texts
abbrev no_lists : Text → Option (List Text)
no_lists text = none

-- Without a file, the path that is shown is the JSON text of the arguments.
json_is_shown :
    full_path (λ text. some (codes "ls" ∷ [])) none (some (codes "[\"ls\"]")) ≡ codes "[\"ls\"]"
unfolding full_path parse_argv0
json_is_shown = refl
