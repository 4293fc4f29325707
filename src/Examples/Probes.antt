-- ===== src/Examples/Probes.antt =====
-- The probes.
use shellspectre.Base.{
  ◌%◌, ◌^◌, unwrap_or, ◌≡◌, refl, ◌⊎◌, true, false, none, [], ◌∷◌, take, All, lookup, ok, err,
}
use shellspectre.Wire.{write, exit, as_wire, ExitEvent, IoEvent}
use shellspectre.Probe.Kernel.{start, fill_header, io_event, exit_event, tgid_of}
use shellspectre.Probe.Exec.{try_sys_enter_exit_group}
use shellspectre.Probe.Io.{try_sys_exit_write}
use shellspectre.Probe.Trace.{run, Justified, NotSelf}
use shellspectre.Probe.Recording.{run-Justified, run-NotSelf}
use shellspectre.Probe.Readable.{IsParsed, run-IsParsed}
use shellspectre.Probe.Calls.{exit_group-untracks, exit_write-records}
use shellspectre.Examples.Data.{recorder, call, call-IsTyped, calls, waiting, in_write}
use shellspectre.Offsets.{TaskFieldOffsets}
use shellspectre.Offsets.Idx.{
  task_real_parent, task_tgid, task_cred, cred_euid, task_signal, signal_tty, tty_index, task_files,
  files_fdt, fdt_fd, file_inode, inode_rdev,
}
use shellspectre.Probe.Kernel.{get_offset}
use shellspectre.Probe.Loader.{load, get_offset-load}

run-Justified_example : Justified (run recorder calls start).events
run-Justified_example = run-Justified recorder calls

run-NotSelf_example : All (NotSelf recorder) (run recorder calls start).events
run-NotSelf_example = run-NotSelf recorder calls

run-IsParsed_example : All IsParsed (run recorder calls start).events
run-IsParsed_example =
    run-IsParsed recorder calls
      (call-IsTyped, (call-IsTyped, (call-IsTyped, (call-IsTyped, (call-IsTyped, tt)))))

exit_group-untracks_example :
    let (result, s') = try_sys_enter_exit_group recorder call in_write in
    ((call.reserve ≡ true)
      × (result ≡ ok tt)
      × ((e : ExitEvent) × (s'.events ≡ exit_event e ∷ in_write.events)
          × (e.exit_code ≡ 1 % 2 ^ 32)
          × (e.header.event_type ≡ as_wire exit)
          × (e.header.pid ≡ tgid_of call.pid_tgid)
          × (e.header.execution_id
              ≡ unwrap_or (lookup (tgid_of call.pid_tgid) in_write.exec_pids) 0))
      × (lookup 7 s'.exec_pids ≡ none)
      × (lookup call.pid_tgid s'.pending_write ≡ none)
      × (lookup call.pid_tgid s'.pending_read ≡ none))
    ⊎ ((call.reserve ≡ false) × (result ≡ err 1) × (s' ≡ in_write))
exit_group-untracks_example = exit_group-untracks recorder call in_write 1 refl refl

exit_write-records_example :
    let s' = (try_sys_exit_write recorder call in_write).1 in
    (e : IoEvent) × (s'.events ≡ io_event e ∷ [])
    × (take e.data_len e.payload ≡ 104 ∷ [])
    × (e.data_len ≡ 1)
    × (e.count ≡ 1)
    × (e.fd ≡ 1)
    × (e.header ≡ fill_header recorder call write call.pid_tgid 5)
    × (lookup call.pid_tgid s'.pending_write ≡ none)
unfolding lookup
exit_write-records_example =
    exit_write-records recorder call in_write waiting 1 5 (104 ∷ []) refl refl refl refl refl refl
      refl

abbrev resolved : TaskFieldOffsets
resolved = record {
  task_real_parent = 10;
  task_tgid = 11;
  task_cred = 12;
  cred_euid = 13;
  task_signal = 14;
  signal_tty = 15;
  tty_index = 16;
  task_files = 17;
  files_fdt = 18;
  fdt_fd = 19;
  file_inode = 20;
  inode_rdev = 21;
}

get_offset-load_example :
    let set = load 1 resolved in
    (get_offset set task_real_parent ≡ 10)
    × (get_offset set task_tgid ≡ 11)
    × (get_offset set task_cred ≡ 12)
    × (get_offset set cred_euid ≡ 13)
    × (get_offset set task_signal ≡ 14)
    × (get_offset set signal_tty ≡ 15)
    × (get_offset set tty_index ≡ 16)
    × (get_offset set task_files ≡ 17)
    × (get_offset set files_fdt ≡ 18)
    × (get_offset set fdt_fd ≡ 19)
    × (get_offset set file_inode ≡ 20)
    × (get_offset set inode_rdev ≡ 21)
get_offset-load_example = get_offset-load 1 resolved
