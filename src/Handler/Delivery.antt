-- ===== src/Handler/Delivery.antt =====
-- What the sink gets for the events that the probes write.
use shellspectre.Base.{
  ℕ, ◌≡◌, inl, inr, refl, ap, ◌∙◌, true, Option, Option-cases, none, some, List, arith,
  if◌then◌else◌, lookup, ok,
}
use shellspectre.Wire.{
  EventType, exec, read, write, exit, EventHeader, decoded_event_type, header_try_from, ExecEvent,
  IoEvent, ExitEvent,
}
use shellspectre.SessionId.{SessionId}
use shellspectre.Session.{SessionCorrelator, ExitInfo, session_of, session_for, on_exit}
use shellspectre.Session.Assign.{
  session_of-session_for, assigned, on_exec-tracks, session_for-tracks,
}
use shellspectre.Event.{is_io}
use shellspectre.Event.Fields.{c_text, exec_fields, exit_fields, io_fields}
use shellspectre.Filter.{FilterConfig, Admits}
use shellspectre.Handler.{
  exec_call, exit_call, io_call, silent, delivered, admitted, exec_info, exit_event_info, io_info,
  exec_session, exit_session, io_session, handle_exec_event, handle_exit_event, handle_io_event,
  dispatch, dispatch_decoded, dispatch_header, handle_event, is_complete,
}
use shellspectre.Event.Layout.{exec_onto, io_onto, exit_onto, ExecFits, IoFits, ExitFits}
use shellspectre.Event.Parse.{
  IsCurrent, parsed_exec-exec_onto, parsed_exit-exit_onto, parsed_io-io_onto,
  header_try_from-header_onto,
}
use shellspectre.Wire.Types.{from_wire-as_wire}
use shellspectre.Wire.Layout.{header_onto, Fits}
use shellspectre.Session.Exits.{on_exit-untracks}
use shellspectre.Handler.Admission.{
  header_info, header_input, header_session, ReachesIff, reaches, admitted_iff,
}

reads :
    (t : EventType) (h : EventHeader) (rest bytes : List ℕ)
    → bytes ≡ header_onto h rest
    → Fits h
    → IsCurrent t h
    → (header_try_from bytes ≡ ok h) × (decoded_event_type h ≡ some t)
unfolding decoded_event_type
reads t h rest bytes same f c = (
  ap header_try_from same ∙ header_try_from-header_onto t h rest f c,
  ground (arith, from_wire-as_wire t),
)

handle_event-dispatch :
    (t : EventType) (h : EventHeader) (rest bytes : List ℕ) (fill : Option (List ℕ))
    (config : FilterConfig) (c : SessionCorrelator)
    → bytes ≡ header_onto h rest
    → Fits h
    → IsCurrent t h
    → handle_event bytes fill config c ≡ dispatch t bytes fill config c
unfolding handle_event dispatch_header dispatch_decoded
handle_event-dispatch t h rest bytes fill config c same f cur =
    ground (arith, reads t h rest bytes same f cur)

handle_exec :
    (e : ExecEvent) (rest : List ℕ) (fill : Option (List ℕ)) (config : FilterConfig)
    (c : SessionCorrelator) (sid : SessionId)
    → ExecFits e
    → IsCurrent exec e.header
    → assigned (header_info e.header) fill c ≡ some sid
    → let (out, c') = handle_event (exec_onto e rest) fill config c in
      (out ≡ (
        if admitted config e.header.pid e.header.tty_nr (c_text e.header.comm) c'
        then delivered (exec_call (header_session sid e.header) (exec_fields e))
        else silent))
      × (session_of e.header.pid c' ≡ some sid)
unfolding exec_onto dispatch handle_exec_event session_of exec_info exec_session
handle_exec e rest fill config c sid f cur s =
    let p = exec_fields e in
    rw (handle_event-dispatch exec e.header _ (exec_onto e rest) fill config c refl f.header cur) (
      rw (parsed_exec-exec_onto e rest f cur)
        (ground (arith, on_exec-tracks (exec_info p) fill c p.pid sid s)))

-- An exec event in the layout of the probes reaches the sink, with its fields and the session of the
-- correlator's priorities, exactly when the filter's rules admit it with the ancestors that are known then,
-- and otherwise the sink gets nothing; the process is tracked with that session in either case. There is
-- such a session unless random bytes are needed and cannot be drawn.
pub exec_delivered :
    (e : ExecEvent) (rest : List ℕ) (fill : Option (List ℕ)) (config : FilterConfig)
    (c : SessionCorrelator) (sid : SessionId)
    → ExecFits e
    → IsCurrent exec e.header
    → assigned (header_info e.header) fill c ≡ some sid
    → let (out, c') = handle_event (exec_onto e rest) fill config c in
      ReachesIff out
        (exec_call (header_session sid e.header) (exec_fields e))
        (Admits config (header_input e.header c'))
      × (session_of e.header.pid c' ≡ some sid)
exec_delivered e rest fill config c sid f cur s =
    let c' = (handle_event (exec_onto e rest) fill config c).1 in
    let (out, tracked) = handle_exec e rest fill config c sid f cur s in
    (rw out (reaches _ _ _ (admitted_iff config e.header c')), tracked)

handle_exit :
    (e : ExitEvent) (rest : List ℕ) (fill : Option (List ℕ)) (config : FilterConfig)
    (c : SessionCorrelator) (sid : SessionId) (report : ExitInfo)
    → ExitFits e
    → IsCurrent exit e.header
    → assigned (header_info e.header) fill c ≡ some sid
    → let c1 = (session_for (header_info e.header) fill c).1 in
      (on_exit e.header.pid c1).0 ≡ some report
      → let (out, c2) = handle_event (exit_onto e rest) fill config c in
        (out ≡ (
          if admitted config e.header.pid e.header.tty_nr (c_text e.header.comm) c1
          then delivered
              (exit_call (header_session sid e.header) (exit_fields e) report.session_complete)
          else silent))
        × (lookup e.header.pid c2.pid_map ≡ none)
unfolding exit_onto dispatch handle_exit_event exit_event_info exit_session is_complete
handle_exit e rest fill config c sid report f cur s r =
    let p = exit_fields e in
    let c1 = (session_for (header_info e.header) fill c).1 in
    rw (handle_event-dispatch exit e.header _ (exit_onto e rest) fill config c refl f.header cur) (
      rw (parsed_exit-exit_onto e rest f cur) (
        ground (arith, r, session_for-tracks (exit_event_info p) fill c p.pid sid s),
        ground (arith, on_exit-untracks p.pid p.pid c1),
      ))

reported :
    (h : EventHeader) (fill : Option (List ℕ)) (c : SessionCorrelator) (sid : SessionId)
    → assigned (header_info h) fill c ≡ some sid
    → (report : ExitInfo) × ((on_exit h.pid (session_for (header_info h) fill c).1).0 ≡ some report)
reported h fill c sid s =
    let c1 = (session_for (header_info h) fill c).1 in
    elim (Option-cases (on_exit h.pid c1).0) [
      | inl e ↦ absurd (
          ground (
            arith,
            e,
            on_exit-untracks h.pid h.pid c1,
            session_for-tracks (header_info h) fill c h.pid sid s,
          ))
      | inr (report, e) ↦ (report, e)
    ]

-- An exit event in the layout of the probes reaches the sink, with its fields, the session of the
-- correlator's priorities and what the correlator reports of the exit, exactly when the filter's rules admit
-- it with the ancestors that are known before the exit, and otherwise the sink gets nothing; the process is
-- untracked in either case. There is such a session unless random bytes are needed and cannot be drawn.
pub exit_delivered :
    (e : ExitEvent) (rest : List ℕ) (fill : Option (List ℕ)) (config : FilterConfig)
    (c : SessionCorrelator) (sid : SessionId)
    → ExitFits e
    → IsCurrent exit e.header
    → assigned (header_info e.header) fill c ≡ some sid
    → let c1 = (session_for (header_info e.header) fill c).1 in
      let (out, c2) = handle_event (exit_onto e rest) fill config c in
      (report : ExitInfo) × ((on_exit e.header.pid c1).0 ≡ some report)
      × ReachesIff out
          (exit_call (header_session sid e.header) (exit_fields e) report.session_complete)
          (Admits config (header_input e.header c1))
      × (lookup e.header.pid c2.pid_map ≡ none)
exit_delivered e rest fill config c sid f cur s =
    let c1 = (session_for (header_info e.header) fill c).1 in
    let (report, r) = reported e.header fill c sid s in
    let (out, untracked) = handle_exit e rest fill config c sid report f cur s r in
    (report, r, rw out (reaches _ _ _ (admitted_iff config e.header c1)), untracked)

dispatch_io :
    (t : EventType) (bytes : List ℕ) (fill : Option (List ℕ)) (config : FilterConfig)
    (c : SessionCorrelator)
    → is_io t ≡ true
    → dispatch t bytes fill config c ≡ handle_io_event t bytes fill config c
unfolding dispatch
dispatch_io exec bytes fill config c h = absurd (cc)
dispatch_io exit bytes fill config c h = absurd (cc)
dispatch_io read bytes fill config c h = refl
dispatch_io write bytes fill config c h = refl

handle_io :
    (t : EventType) (e : IoEvent) (rest : List ℕ) (fill : Option (List ℕ)) (config : FilterConfig)
    (c : SessionCorrelator) (sid : SessionId)
    → is_io t ≡ true
    → IoFits e
    → IsCurrent t e.header
    → assigned (header_info e.header) fill c ≡ some sid
    → let (out, c') = handle_io_event t (io_onto e rest) fill config c in
      (out ≡ (
        if admitted config e.header.pid e.header.tty_nr (c_text e.header.comm) c'
        then delivered (io_call (header_session sid e.header) (io_fields e) t)
        else silent))
      × (session_of e.header.pid c' ≡ some sid)
unfolding handle_io_event io_info io_session
handle_io t e rest fill config c sid io f cur s = rw (parsed_io-io_onto t e rest io f cur) (
  ground (arith, session_for-tracks (header_info e.header) fill c e.header.pid sid s),
  session_of-session_for (header_info e.header) fill c sid s,
)

-- A read or write event in the layout of the probes reaches the sink as its own type, with its fields and
-- the session of the correlator's priorities, exactly when the filter's rules admit it with the ancestors
-- that are known then, and otherwise the sink gets nothing; its process is tracked with that session in
-- either case, and is if it was not before. There is such a session unless random bytes are needed and
-- cannot be drawn.
pub io_delivered :
    (t : EventType) (e : IoEvent) (rest : List ℕ) (fill : Option (List ℕ)) (config : FilterConfig)
    (c : SessionCorrelator) (sid : SessionId)
    → is_io t ≡ true
    → IoFits e
    → IsCurrent t e.header
    → assigned (header_info e.header) fill c ≡ some sid
    → let (out, c') = handle_event (io_onto e rest) fill config c in
      ReachesIff out
        (io_call (header_session sid e.header) (io_fields e) t)
        (Admits config (header_input e.header c'))
      × (session_of e.header.pid c' ≡ some sid)
unfolding io_onto
io_delivered t e rest fill config c sid io f cur s =
    rw (handle_event-dispatch t e.header _ (io_onto e rest) fill config c refl f.header cur) (
      rw (dispatch_io t (io_onto e rest) fill config c io) (
        let c' = (handle_io_event t (io_onto e rest) fill config c).1 in
        let (out, tracked) = handle_io t e rest fill config c sid io f cur s in
        (rw out (reaches _ _ _ (admitted_iff config e.header c')), tracked)))
