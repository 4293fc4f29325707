-- ===== src/Event/Parse.antt =====
-- What the parsers return.
use shellspectre.Base.{
  ℕ, zero, suc, ◌+◌, ◌≤◌, min, ◌≡◌, refl, ap, ◌∙◌, true, List, arith, length, length-map, ok, le_at,
  length-take, length-drop,
}
use shellspectre.Wire.{
  EventType, exec, exit, as_wire, EventHeader, decoded_event_type, header_try_from, header_at,
  wire_version, ExecEvent, IoEvent, ExitEvent, exec_size, io_size, max_argv_count, max_arg_len,
  max_data_len,
}
use shellspectre.Wire.Types.{from_wire-as_wire}
use shellspectre.Wire.Layout.{header_onto, Fits, length-header_onto, header_at-header_onto}
use shellspectre.Event.{
  rows, exec_at, io_at, ParsedExecEvent, ParsedIoEvent, exec_of, exit_of, io_of, is_io,
  typed_header, parsed_exec, parsed_exit, parsed_io,
}
use shellspectre.Event.Fields.{
  exec_fields, exit_fields, io_fields, exec_of-exec_fields, exit_of-exit_fields, io_of-io_fields,
}
use shellspectre.Event.Layout.{
  exec_onto, io_onto, exit_onto, ExecFits, IoFits, ExitFits, exec_at-exec_onto, io_at-io_onto,
  exit_at-exit_onto,
}

-- A header of the current version and the given event type.
pub record IsCurrent (t : EventType) (h : EventHeader) : Type 0 where
  pub version : h.version ≡ wire_version
  pub event_type : h.event_type ≡ as_wire t

-- Reading a buffer that begins with such a header.
pub header_try_from-header_onto :
    (t : EventType) (h : EventHeader) (rest : List ℕ)
    → Fits h
    → IsCurrent t h
    → header_try_from (header_onto h rest) ≡ ok h
unfolding header_try_from
header_try_from-header_onto t h rest f c =
    ground
      (arith, (header_at-header_onto h rest f).0, length-header_onto h rest f, from_wire-as_wire t)

typed_header-header_onto :
    (t : EventType) (h : EventHeader) (rest : List ℕ)
    → Fits h
    → IsCurrent t h
    → typed_header (header_onto h rest) ≡ ok (h, t)
unfolding typed_header decoded_event_type
typed_header-header_onto t h rest f c =
    ground (arith, header_try_from-header_onto t h rest f c, from_wire-as_wire t)

typed_header-exec_onto :
    (e : ExecEvent) (rest : List ℕ)
    → ExecFits e
    → IsCurrent exec e.header
    → typed_header (exec_onto e rest) ≡ ok (e.header, exec)
unfolding exec_onto
typed_header-exec_onto e rest f c = typed_header-header_onto exec e.header _ f.header c

typed_header-exit_onto :
    (e : ExitEvent) (rest : List ℕ)
    → ExitFits e
    → IsCurrent exit e.header
    → typed_header (exit_onto e rest) ≡ ok (e.header, exit)
unfolding exit_onto
typed_header-exit_onto e rest f c = typed_header-header_onto exit e.header _ f.header c

typed_header-io_onto :
    (t : EventType) (e : IoEvent) (rest : List ℕ)
    → IoFits e
    → IsCurrent t e.header
    → typed_header (io_onto e rest) ≡ ok (e.header, t)
unfolding io_onto
typed_header-io_onto t e rest f c = typed_header-header_onto t e.header _ f.header c

pub parsed_exec-exec_of :
    (e : ExecEvent) (rest : List ℕ)
    → ExecFits e
    → IsCurrent exec e.header
    → parsed_exec (exec_onto e rest) ≡ ok (exec_of e)
unfolding parsed_exec
parsed_exec-exec_of e rest f c =
    ground (arith, typed_header-exec_onto e rest f c, exec_at-exec_onto e rest f)

pub parsed_exit-exit_of :
    (e : ExitEvent) (rest : List ℕ)
    → ExitFits e
    → IsCurrent exit e.header
    → parsed_exit (exit_onto e rest) ≡ ok (exit_of e)
unfolding parsed_exit
parsed_exit-exit_of e rest f c =
    ground (arith, typed_header-exit_onto e rest f c, exit_at-exit_onto e rest f)

pub parsed_io-io_of :
    (t : EventType) (e : IoEvent) (rest : List ℕ)
    → is_io t ≡ true
    → IoFits e
    → IsCurrent t e.header
    → parsed_io (io_onto e rest) ≡ ok (io_of e)
unfolding parsed_io
parsed_io-io_of t e rest io f c =
    ground (arith, typed_header-io_onto t e rest f c, io_at-io_onto e rest f)

-- An exec event in the layout of the probes is parsed to its fields: texts cut at their first 0 byte, and
-- at most 20 arguments, as many as it counts.
pub parsed_exec-exec_onto :
    (e : ExecEvent) (rest : List ℕ)
    → ExecFits e
    → IsCurrent exec e.header
    → parsed_exec (exec_onto e rest) ≡ ok (exec_fields e)
parsed_exec-exec_onto e rest f c = parsed_exec-exec_of e rest f c ∙ ap ok (exec_of-exec_fields e)

-- An exit event in the layout of the probes is parsed to its fields, the exit code with its sign.
pub parsed_exit-exit_onto :
    (e : ExitEvent) (rest : List ℕ)
    → ExitFits e
    → IsCurrent exit e.header
    → parsed_exit (exit_onto e rest) ≡ ok (exit_fields e)
parsed_exit-exit_onto e rest f c = parsed_exit-exit_of e rest f c ∙ ap ok (exit_of-exit_fields e)

-- A read or write event in the layout of the probes is parsed to its fields and the first 4096 captured
-- bytes at most, as many as it holds.
pub parsed_io-io_onto :
    (t : EventType) (e : IoEvent) (rest : List ℕ)
    → is_io t ≡ true
    → IoFits e
    → IsCurrent t e.header
    → parsed_io (io_onto e rest) ≡ ok (io_fields e)
parsed_io-io_onto t e rest io f c = parsed_io-io_of t e rest io f c ∙ ap ok (io_of-io_fields e)

-- A parser that succeeds has read a whole event of its own type.
pub parsed_exec-ok :
    (bytes : List ℕ) (p : ParsedExecEvent)
    → parsed_exec bytes ≡ ok p
    → (p ≡ exec_of (exec_at bytes))
      × (exec_size ≤ length bytes)
      × (typed_header bytes ≡ ok (header_at bytes, exec))
unfolding parsed_exec typed_header header_try_from
parsed_exec-ok bytes p h = ground arith

pub parsed_io-ok :
    (bytes : List ℕ) (p : ParsedIoEvent)
    → parsed_io bytes ≡ ok p
    → (p ≡ io_of (io_at bytes)) × (io_size ≤ length bytes)
unfolding parsed_io typed_header
parsed_io-ok bytes p h = ground arith

length-rows : (n off : ℕ) (bytes : List ℕ) → length (rows n off bytes) ≡ n
unfolding rows
length-rows zero off bytes = refl
length-rows (suc n) off bytes = ap suc (length-rows n (off + max_arg_len) bytes)

-- Whatever the buffer holds, a parsed exec event has at most 20 arguments, as many as its count says
-- below that.
pub parsed_exec-bounded :
    (bytes : List ℕ) (p : ParsedExecEvent)
    → parsed_exec bytes ≡ ok p
    → length p.argv ≡ min (le_at 5456 4 bytes) max_argv_count
unfolding exec_of exec_at
parsed_exec-bounded bytes p h =
    ap (λ (q : ParsedExecEvent). length q.argv) (parsed_exec-ok bytes p h).0
    ∙ simp (length-map, length-take, length-rows) (omega arith)

-- Whatever the buffer holds, a parsed I/O event carries at most 4096 bytes, as many as its length
-- field says below that.
pub parsed_io-bounded :
    (bytes : List ℕ) (p : ParsedIoEvent)
    → parsed_io bytes ≡ ok p
    → length p.payload ≡ min (le_at 84 4 bytes) max_data_len
unfolding io_of io_at
parsed_io-bounded bytes p h =
    ap (λ (q : ParsedIoEvent). length q.payload) (parsed_io-ok bytes p h).0
    ∙ simp length-take (omega (arith, length-drop 96 bytes, (parsed_io-ok bytes p h).1))
