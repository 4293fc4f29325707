-- ===== src/Handler/Filtering.antt =====
-- What a filter changes of handling an event.
use shellspectre.Base.{
  ℕ, ◌≡◌, sym, ◌↔◌, inl, inr, Option-cases, refl, ◌≢◌, ◌⊎◌, false, Option, none, some, List, [],
  ◌∷◌, arith, Result, ok, err,
}
use shellspectre.Wire.{
  EventType, exec, read, write, exit, EventHeader, decoded_event_type, header_try_from, ParseError,
}
use shellspectre.Session.{SessionCorrelator}
use shellspectre.Session.Assign.{
  assigned, assigned-eq-none, on_exec_panics, session_for_panics, on_exec-tracks,
  session_for-tracks,
}
use shellspectre.Event.{
  ParsedExecEvent, ParsedExitEvent, ParsedIoEvent, parsed_exec, parsed_exit, parsed_io,
}
use shellspectre.Filter.{FilterConfig}
use shellspectre.Handler.{
  SinkCall, Outcome, silent, delivered, panicked, exec_info, exit_event_info, io_info, exec_with,
  exit_with, io_with, handle_exec_event, handle_exit_event, handle_io_event, dispatch,
  dispatch_decoded, dispatch_header, handle_event, and_then, consume,
}
use mathlib.Core.List.{Sublistᴰ}

-- Every event passes.
abbrev pub open_config : FilterConfig
open_config = record { filter_pty = false; filter_ancestors = [] }

-- `a` is what handling an event does under some filter, `b` what it does under none, and `fill` what
-- `getrandom::fill` does.
pub record IsFiltered (fill : Option (List ℕ)) (a b : Outcome × SessionCorrelator) : Type 0 where
  pub state : a.1 ≡ b.1
  pub outcome : (a.0 ≡ silent) ⊎ (a.0 ≡ b.0)
  pub panics : (a.0 ≡ panicked) ↔ (b.0 ≡ panicked)
  pub sound : (a.0 ≢ panicked) ⊎ (fill ≡ none)

untouched :
    (fill : Option (List ℕ)) (c : SessionCorrelator) → IsFiltered fill (silent, c) (silent, c)
untouched fill c = record {
  state = refl;
  outcome = inl refl;
  panics = (λ h. h, λ h. h);
  sound = inl (ground arith);
}

exec_with-IsFiltered :
    (r : Result ParseError ParsedExecEvent) (fill : Option (List ℕ)) (config : FilterConfig)
    (c : SessionCorrelator)
    → IsFiltered fill (exec_with r fill config c) (exec_with r fill open_config c)
unfolding exec_with
exec_with-IsFiltered (err x) fill config c = untouched fill c
exec_with-IsFiltered (ok e) fill config c = elim (Option-cases (assigned (exec_info e) fill c)) [
  | inl none_drawn ↦ rw (on_exec_panics (exec_info e) fill c none_drawn) (record {
    state = refl;
    outcome = inr refl;
    panics = (λ h. h, λ h. h);
    sound = inr (assigned-eq-none (exec_info e) fill c none_drawn);
  })
  | inr (sid, s) ↦ record {
    state = refl;
    outcome = ground (arith, on_exec-tracks (exec_info e) fill c e.pid sid s);
    panics = ground (arith, on_exec-tracks (exec_info e) fill c e.pid sid s);
    sound = inl (ground (arith, on_exec-tracks (exec_info e) fill c e.pid sid s));
  }
]

exit_with-IsFiltered :
    (r : Result ParseError ParsedExitEvent) (fill : Option (List ℕ)) (config : FilterConfig)
    (c : SessionCorrelator)
    → IsFiltered fill (exit_with r fill config c) (exit_with r fill open_config c)
unfolding exit_with
exit_with-IsFiltered (err x) fill config c = untouched fill c
exit_with-IsFiltered (ok e) fill config c =
    elim (Option-cases (assigned (exit_event_info e) fill c)) [
      | inl none_drawn ↦ rw (session_for_panics (exit_event_info e) fill c none_drawn) (record {
        state = refl;
        outcome = inr refl;
        panics = (λ h. h, λ h. h);
        sound = inr (assigned-eq-none (exit_event_info e) fill c none_drawn);
      })
      | inr (sid, s) ↦ record {
        state = refl;
        outcome = ground (arith, session_for-tracks (exit_event_info e) fill c e.pid sid s);
        panics = ground (arith, session_for-tracks (exit_event_info e) fill c e.pid sid s);
        sound = inl (ground (arith, session_for-tracks (exit_event_info e) fill c e.pid sid s));
      }
    ]

io_with-IsFiltered :
    (r : Result ParseError ParsedIoEvent) (t : EventType) (fill : Option (List ℕ))
    (config : FilterConfig) (c : SessionCorrelator)
    → IsFiltered fill (io_with r t fill config c) (io_with r t fill open_config c)
unfolding io_with
io_with-IsFiltered (err x) t fill config c = untouched fill c
io_with-IsFiltered (ok e) t fill config c = elim (Option-cases (assigned (io_info e) fill c)) [
  | inl none_drawn ↦ rw (session_for_panics (io_info e) fill c none_drawn) (record {
    state = refl;
    outcome = inr refl;
    panics = (λ h. h, λ h. h);
    sound = inr (assigned-eq-none (io_info e) fill c none_drawn);
  })
  | inr (sid, s) ↦ record {
    state = refl;
    outcome = ground (arith, session_for-tracks (io_info e) fill c e.pid sid s);
    panics = ground (arith, session_for-tracks (io_info e) fill c e.pid sid s);
    sound = inl (ground (arith, session_for-tracks (io_info e) fill c e.pid sid s));
  }
]

dispatch-IsFiltered :
    (t : EventType) (bytes : List ℕ) (fill : Option (List ℕ)) (config : FilterConfig)
    (c : SessionCorrelator)
    → IsFiltered fill (dispatch t bytes fill config c) (dispatch t bytes fill open_config c)
unfolding dispatch handle_exec_event handle_exit_event handle_io_event
dispatch-IsFiltered exec bytes fill config c =
    exec_with-IsFiltered (parsed_exec bytes) fill config c
dispatch-IsFiltered exit bytes fill config c =
    exit_with-IsFiltered (parsed_exit bytes) fill config c
dispatch-IsFiltered read bytes fill config c =
    io_with-IsFiltered (parsed_io bytes) read fill config c
dispatch-IsFiltered write bytes fill config c =
    io_with-IsFiltered (parsed_io bytes) write fill config c

decoded-IsFiltered :
    (o : Option EventType) (bytes : List ℕ) (fill : Option (List ℕ)) (config : FilterConfig)
    (c : SessionCorrelator)
    → IsFiltered fill
        (dispatch_decoded o bytes fill config c)
        (dispatch_decoded o bytes fill open_config c)
unfolding dispatch_decoded
decoded-IsFiltered none bytes fill config c = untouched fill c
decoded-IsFiltered (some t) bytes fill config c = dispatch-IsFiltered t bytes fill config c

header-IsFiltered :
    (r : Result ParseError EventHeader) (bytes : List ℕ) (fill : Option (List ℕ))
    (config : FilterConfig) (c : SessionCorrelator)
    → IsFiltered fill
        (dispatch_header r bytes fill config c)
        (dispatch_header r bytes fill open_config c)
unfolding dispatch_header
header-IsFiltered (err e) bytes fill config c = untouched fill c
header-IsFiltered (ok h) bytes fill config c =
    decoded-IsFiltered (decoded_event_type h) bytes fill config c

-- Whatever the bytes, the filters and the correlator: the correlator is left as it would be with no
-- filter; the sink gets either the call that it would get with no filter, or none; and handling an event
-- panics only where the operating system fails to draw random bytes, under the filter exactly when without.
pub handle_event-IsFiltered :
    (bytes : List ℕ) (fill : Option (List ℕ)) (config : FilterConfig) (c : SessionCorrelator)
    → IsFiltered fill (handle_event bytes fill config c) (handle_event bytes fill open_config c)
unfolding handle_event
handle_event-IsFiltered bytes fill config c =
    header-IsFiltered (header_try_from bytes) bytes fill config c

-- One event in front of a stream.
and_then-Sublistᴰ :
    (a b : Outcome) (c : SessionCorrelator) (r t : List SinkCall × SessionCorrelator)
    → (a ≡ silent) ⊎ (a ≡ b)
    → (a ≡ panicked) ↔ (b ≡ panicked)
    → Sublistᴰ r.0 t.0
    → r.1 ≡ t.1
    → Sublistᴰ (and_then a c r).0 (and_then b c t).0 × ((and_then a c r).1 ≡ (and_then b c t).1)
and_then-Sublistᴰ silent silent c r t h p s e = (s, e)
and_then-Sublistᴰ silent (delivered y) c r t h p s e = (Sublistᴰ.cons s, e)
and_then-Sublistᴰ silent panicked c r t h p s e = absurd (ground (arith, p.1 refl))
and_then-Sublistᴰ (delivered x) (delivered y) c r t h p s e =
    (Sublistᴰ.cons-cons (ground arith) s, e)
and_then-Sublistᴰ (delivered x) silent c r t h p s e = absurd (ground arith)
and_then-Sublistᴰ (delivered x) panicked c r t h p s e = absurd (ground (arith, p.1 refl))
and_then-Sublistᴰ panicked panicked c r t h p s e = (Sublistᴰ.slnil, refl)
and_then-Sublistᴰ panicked silent c r t h p s e = absurd (ground (arith, p.0 refl))
and_then-Sublistᴰ panicked (delivered y) c r t h p s e = absurd (ground (arith, p.0 refl))

-- Over a whole stream of events, a filtered recording is the unfiltered one with calls left out: the
-- calls that remain have the same sessions and contents and come in the same order; and the correlator
-- ends the same.
pub consume_filtered :
    (items : List (List ℕ × Option (List ℕ))) (config : FilterConfig) (c : SessionCorrelator)
    → Sublistᴰ (consume items config c).0 (consume items open_config c).0
      × ((consume items config c).1 ≡ (consume items open_config c).1)
unfolding consume
consume_filtered [] config c = (Sublistᴰ.slnil, refl)
consume_filtered ((bytes, fill) ∷ items) config c =
    let f = handle_event-IsFiltered bytes fill config c in
    let ih = consume_filtered items config (handle_event bytes fill config c).1 in
    rw (sym f.state) (and_then-Sublistᴰ _ _ _ _ _ f.outcome f.panics ih.0 ih.1)
