-- ===== src/Examples/Handling.antt =====
-- The daemon's handler.
use shellspectre.Base.{
  ℕ, ◌≡◌, refl, ◌↔◌, true, false, Option, none, some, List, [], ◌∷◌, replicate, lookup, codes,
}
use shellspectre.Wire.{EventHeader, exec, write, exit}
use shellspectre.Event.Layout.{exec_onto, io_onto, exit_onto}
use shellspectre.Filter.{FilterConfig, FilterInput, Admits, passes_filter, passes_filter_iff}
use shellspectre.SessionId.{SessionId}
use shellspectre.Event.Fields.{exec_fields, exit_fields, io_fields}
use shellspectre.Session.{ExitInfo, default, session_of, session_for, on_exit}
use shellspectre.Session.Assign.{assigned-drawn}
use shellspectre.Handler.{exec_call, exit_call, io_call, handle_event, consume}
use shellspectre.Handler.Filtering.{
  open_config, IsFiltered, handle_event-IsFiltered, consume_filtered,
}
use shellspectre.Handler.Admission.{ReachesIff, header_info, header_input, header_session}
use shellspectre.Handler.Delivery.{exec_delivered, exit_delivered, io_delivered}
use shellspectre.Examples.Data.{
  shell_header-Fits, shell_exec, shell_exec-ExecFits, shell_write, shell_write-IoFits, shell_exit,
  shell_exit-ExitFits,
}
use mathlib.Core.List.{Sublistᴰ}

-- the bytes of an identifier
abbrev drawn : List ℕ
drawn = replicate 8 0

-- only processes on a terminal
abbrev on_terminals : FilterConfig
on_terminals = record { filter_pty = true; filter_ancestors = [] }

abbrev items : List (List ℕ × Option (List ℕ))
items =
    (exec_onto shell_exec [], some drawn)
    ∷ (io_onto shell_write [], some drawn)
    ∷ (exit_onto shell_exit [], some drawn)
    ∷ []

handle_event-IsFiltered_example :
    IsFiltered
      (some drawn)
      (handle_event (exec_onto shell_exec []) (some drawn) on_terminals default)
      (handle_event (exec_onto shell_exec []) (some drawn) open_config default)
handle_event-IsFiltered_example =
    handle_event-IsFiltered (exec_onto shell_exec []) (some drawn) on_terminals default

consume_filtered_example :
    Sublistᴰ (consume items on_terminals default).0 (consume items open_config default).0
    × ((consume items on_terminals default).1 ≡ (consume items open_config default).1)
consume_filtered_example = consume_filtered items on_terminals default

-- the session of the first event of a process
abbrev first_session : EventHeader → SessionId
first_session h = (assigned-drawn (header_info h) drawn default).0

exec_delivered_example :
    let (out, c') = handle_event (exec_onto shell_exec []) (some drawn) on_terminals default in
    ReachesIff out
      (exec_call
        (header_session (first_session shell_exec.header) shell_exec.header)
        (exec_fields shell_exec))
      (Admits on_terminals (header_input shell_exec.header c'))
    × (session_of shell_exec.header.pid c' ≡ some (first_session shell_exec.header))
exec_delivered_example =
    exec_delivered shell_exec [] (some drawn) on_terminals default (first_session shell_exec.header)
      shell_exec-ExecFits (shell_header-Fits exec).1
      (assigned-drawn (header_info shell_exec.header) drawn default).1

exit_delivered_example :
    let c1 = (session_for (header_info shell_exit.header) (some drawn) default).1 in
    let (out, c2) = handle_event (exit_onto shell_exit []) (some drawn) on_terminals default in
    (report : ExitInfo) × ((on_exit shell_exit.header.pid c1).0 ≡ some report)
    × ReachesIff out
        (exit_call
          (header_session (first_session shell_exit.header) shell_exit.header)
          (exit_fields shell_exit)
          report.session_complete)
        (Admits on_terminals (header_input shell_exit.header c1))
    × (lookup shell_exit.header.pid c2.pid_map ≡ none)
exit_delivered_example =
    exit_delivered shell_exit [] (some drawn) on_terminals default (first_session shell_exit.header)
      shell_exit-ExitFits (shell_header-Fits exit).1
      (assigned-drawn (header_info shell_exit.header) drawn default).1

io_delivered_example :
    let (out, c') = handle_event (io_onto shell_write []) (some drawn) on_terminals default in
    ReachesIff out
      (io_call
        (header_session (first_session shell_write.header) shell_write.header)
        (io_fields shell_write)
        write)
      (Admits on_terminals (header_input shell_write.header c'))
    × (session_of shell_write.header.pid c' ≡ some (first_session shell_write.header))
io_delivered_example =
    io_delivered write shell_write [] (some drawn) on_terminals default
      (first_session shell_write.header) refl shell_write-IoFits (shell_header-Fits write).1
      (assigned-drawn (header_info shell_write.header) drawn default).1

abbrev from_sshd : FilterConfig
from_sshd = record { filter_pty = false; filter_ancestors = codes "sshd" ∷ [] }

abbrev login_shell : FilterInput
login_shell = record { tty_nr = 0; comm = codes "bash"; ancestor_comms = codes "sshd" ∷ [] }

passes_filter_iff_example :
    (passes_filter from_sshd login_shell ≡ true) ↔ Admits from_sshd login_shell
passes_filter_iff_example = passes_filter_iff from_sshd login_shell
