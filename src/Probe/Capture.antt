-- ===== src/Probe/Capture.antt =====
-- The events that the read and write probes submit, and what they keep of the recording.
use shellspectre.Base.{
  ℕ, min, ◌≡◌, refl, sym, true, false, Option, none, some, List, arith, All, lookup, as_signed,
  is_nonpositive, Result, ok, err,
}
use shellspectre.Wire.{EventType, as_wire, IoEvent, max_data_len}
use shellspectre.Probe.Kernel.{Env, Setup, tgid_of, is_self, fill_header, Pending, RingEvent, State}
use mathlib.Core.Path.{subst}
use shellspectre.Probe.Io.{io_result, submitted}
use shellspectre.Probe.Trace.{Execd, Justified, NotSelf, Inv}

-- What is known of an I/O event that is submitted: the call moved `count` bytes, of which the event
-- holds the first 4096 at most; its process is the current one, and its execution the tracked one.
pub record IsCapture (env : Env) (t : EventType) (p : Pending) (ret : ℕ) (s : State) (e : IoEvent)
    : Type 0 where
  pub pid : e.header.pid ≡ tgid_of env.pid_tgid
  pub event_type : e.header.event_type ≡ as_wire t
  pub tracked : lookup (tgid_of env.pid_tgid) s.exec_pids ≡ some e.header.execution_id
  pub fd : e.fd ≡ p.fd
  pub count : e.count ≡ ret
  pub data_len : e.data_len ≡ min ret max_data_len
  pub moved : is_nonpositive (as_signed 64 ret) ≡ false
  pub room : env.reserve ≡ true

pub io_result-IsCapture :
    (set : Setup) (env : Env) (t : EventType) (p : Pending) (ret : ℕ) (s : State) (e : IoEvent)
    → io_result set env t p ret s ≡ ok (some e)
    → IsCapture env t p ret s e
unfolding io_result fill_header
io_result-IsCapture set env t p ret s e h = ground arith

-- A submission keeps the parts of the invariant that speak of the history.
pub submitted-Justified :
    (set : Setup) (env : Env) (t : EventType) (p : Pending) (ret : ℕ) (s : State)
    → Inv set s
    → Justified (submitted (io_result set env t p ret s) s.events)
unfolding submitted
submitted-Justified set env t p ret s i = go (io_result set env t p ret s) refl
  where
    go :
        (r : Result ℕ (Option IoEvent))
        → io_result set env t p ret s ≡ r
        → Justified (submitted r s.events)
    go (err x) e = i.justified
    go (ok none) e = i.justified
    go (ok (some ev)) e =
        let c = io_result-IsCapture set env t p ret s ev e in
        let done = i.execd (tgid_of env.pid_tgid) ev.header.execution_id c.tracked in
        (subst (λ k. Execd k ev.header.execution_id s.events) (sym c.pid) done, i.justified)

pub submitted-NotSelf :
    (set : Setup) (env : Env) (t : EventType) (p : Pending) (ret : ℕ) (s : State)
    → is_self set.self_tgid (tgid_of env.pid_tgid) ≡ false
    → Inv set s
    → All (NotSelf set) (submitted (io_result set env t p ret s) s.events)
unfolding submitted
submitted-NotSelf set env t p ret s n i = go (io_result set env t p ret s) refl
  where
    go :
        (r : Result ℕ (Option IoEvent))
        → io_result set env t p ret s ≡ r
        → All (NotSelf set) (submitted r s.events)
    go (err x) e = i.others
    go (ok none) e = i.others
    go (ok (some ev)) e =
        let c = io_result-IsCapture set env t p ret s ev e in (rw c.pid n, i.others)

pub submitted-Execd :
    (r : Result ℕ (Option IoEvent)) (l : List RingEvent) (t x : ℕ)
    → Execd t x l
    → Execd t x (submitted r l)
unfolding submitted
submitted-Execd (err e) l t x h = h
submitted-Execd (ok none) l t x h = h
submitted-Execd (ok (some ev)) l t x h = h
