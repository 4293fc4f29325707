-- ===== src/Examples/Formats.antt =====
-- The formats of the events.
use shellspectre.Base.{
  ◌≤◌, ◌<◌, ◌≡◌, refl, ◌≢◌, ◌↔◌, ◌⊎◌, true, none, some, [], is_some, length, codes, ok, err,
}
use shellspectre.Wire.{
  exec, read, write, exit, from_wire, as_wire, from_str, as_str, header_at, header_try_from,
  header_size, wire_version, buffer_too_short, invalid_wire_version, invalid_event_type,
}
use shellspectre.Wire.Layout.{header_onto}
use shellspectre.Wire.Types.{event_type_codes, header_try_from-checks}
use shellspectre.Event.Fields.{exec_fields, exit_fields, io_fields}
use shellspectre.Event.{parsed_exec, parsed_exit, parsed_io}
use shellspectre.Event.Layout.{exec_onto, io_onto, exit_onto}
use shellspectre.Event.Parse.{parsed_exec-exec_onto, parsed_io-io_onto, parsed_exit-exit_onto}
use shellspectre.Examples.Data.{
  shell_header, shell_header-Fits, shell_exec, shell_exec-ExecFits, shell_write, shell_write-IoFits,
  shell_exit, shell_exit-ExitFits,
}

parsed_exec-exec_onto_example : parsed_exec (exec_onto shell_exec []) ≡ ok (exec_fields shell_exec)
parsed_exec-exec_onto_example =
    parsed_exec-exec_onto shell_exec [] shell_exec-ExecFits (shell_header-Fits exec).1

parsed_io-io_onto_example : parsed_io (io_onto shell_write []) ≡ ok (io_fields shell_write)
parsed_io-io_onto_example =
    parsed_io-io_onto write shell_write [] refl shell_write-IoFits (shell_header-Fits write).1

parsed_exit-exit_onto_example : parsed_exit (exit_onto shell_exit []) ≡ ok (exit_fields shell_exit)
parsed_exit-exit_onto_example =
    parsed_exit-exit_onto shell_exit [] shell_exit-ExitFits (shell_header-Fits exit).1

header_try_from-checks_example :
    let bytes = header_onto (shell_header exec) [] in
    let h = header_at bytes in
    ((header_try_from bytes ≡ ok h)
      × (header_size ≤ length bytes)
      × (h.version ≡ wire_version)
      × (is_some (from_wire h.event_type) ≡ true))
    ⊎ ((header_try_from bytes ≡ err (buffer_too_short header_size (length bytes)))
        × (length bytes < header_size))
    ⊎ ((header_try_from bytes ≡ err (invalid_wire_version h.version))
        × (header_size ≤ length bytes)
        × (h.version ≢ wire_version))
    ⊎ ((header_try_from bytes ≡ err (invalid_event_type h.event_type))
        × (header_size ≤ length bytes)
        × (h.version ≡ wire_version)
        × (from_wire h.event_type ≡ none))
header_try_from-checks_example = header_try_from-checks (header_onto (shell_header exec) [])

event_type_codes_example :
    ((from_wire 2 ≡ some read) ↔ (2 ≡ as_wire read))
    × ((from_str (codes "write") ≡ some read) ↔ (codes "write" ≡ as_str read))
event_type_codes_example = event_type_codes read 2 (codes "write")
