-- ===== src/Probe/Built.antt =====
-- The event that an exit probe on read or write builds, and its shape.
use shellspectre.Base.{
  ℕ, ◌-◌, ◌^◌, ◌≤◌, ◌<◌, ◌≡◌, refl, sym, ◌⊎◌, inl, inr, true, Option, none, some, List, ◌++◌, arith,
  Option-cases, length, replicate, All, lookup, length-append, length-replicate, Result, ok, err,
}
use shellspectre.Wire.{EventType, exec, read, write, exit, EventHeader, IoEvent, max_data_len}
use mathlib.Core.Path.{subst}
use shellspectre.Event.{is_io}
use shellspectre.Event.Parse.{IsCurrent}
use shellspectre.Probe.Kernel.{Env, Setup, tgid_of, Pending, io_event, State}
use shellspectre.Probe.Io.{io_header, io_result, submitted, to_read}
use shellspectre.Probe.Typed.{IsTyped, fill_header-Fits}
use shellspectre.Probe.Shaped.{IsReadable, Shaped}

pub to_read-max : (n : ℕ) → to_read n ≤ max_data_len
unfolding to_read
to_read-max n = ground arith

pub length-payload :
    (bytes : List ℕ) (n : ℕ)
    → length bytes ≡ to_read n
    → length (bytes ++ replicate (max_data_len - to_read n) 0) ≡ max_data_len
unfolding to_read
length-payload bytes n h = omega (
  arith,
  to_read-max n,
  length-append bytes (replicate {A = ℕ} (max_data_len - to_read n) 0),
  length-replicate {A = ℕ} (max_data_len - to_read n) 0,
)

io-IsCurrent :
    (t : EventType) (h : EventHeader)
    → is_io t ≡ true
    → IsCurrent t h
    → IsCurrent read h ⊎ IsCurrent write h
io-IsCurrent exec h io c = absurd (cc)
io-IsCurrent exit h io c = absurd (cc)
io-IsCurrent read h io c = inl c
io-IsCurrent write h io c = inr c

-- the event of `fill_io_data`, for the bytes that were read
abbrev pub built : Setup → Env → EventType → Pending → ℕ → ℕ → List ℕ → IoEvent
built set env t p n x bytes = record (io_header set env t x p.fd n) {
  payload = bytes ++ replicate (max_data_len - to_read n) 0;
  data_len = to_read n;
}

pub io_result-built :
    (set : Setup) (env : Env) (t : EventType) (p : Pending) (n : ℕ) (s : State) (e : IoEvent)
    → io_result set env t p n s ≡ ok (some e)
    → (x : ℕ) × (bytes : List ℕ) × (lookup (tgid_of env.pid_tgid) s.exec_pids ≡ some x)
      × (env.user_buf p.buf_ptr (to_read n) ≡ some bytes)
      × (e ≡ built set env t p n x bytes)
unfolding io_result
io_result-built set env t p n s e h =
    elim (Option-cases (lookup (tgid_of env.pid_tgid) s.exec_pids)) [
      | inl q ↦ absurd (ground (arith, q))
      | inr (x, q) ↦ elim (Option-cases (env.user_buf p.buf_ptr (to_read n))) [
        | inl q' ↦ absurd (ground (arith, q, q'))
        | inr (bytes, q') ↦ (x, bytes, q, q', ground (arith, q, q'))
      ]
    ]

built-Readable :
    (set : Setup) (env : Env) (t : EventType) (p : Pending) (n x : ℕ) (bytes : List ℕ)
    → is_io t ≡ true
    → IsTyped env
    → p.fd < 2 ^ 32
    → n < 2 ^ 64
    → x < 2 ^ 64
    → length bytes ≡ to_read n
    → IsReadable (io_event (built set env t p n x bytes))
unfolding io_header
built-Readable set env t p n x bytes io ty hfd hn hx l =
    let h = fill_header-Fits set env t x ty hx in
    (
      record {
        header = h.0;
        fd = omega (arith, hfd);
        data_len = omega (arith, to_read-max n);
        count = omega (arith, hn);
        payload = length-payload bytes n l;
      },
      io-IsCurrent t _ io h.1,
    )

pub submitted-Readable :
    (set : Setup) (env : Env) (t : EventType) (p : Pending) (n : ℕ) (s : State)
    → is_io t ≡ true
    → IsTyped env
    → p.fd < 2 ^ 32
    → n < 2 ^ 64
    → Shaped s
    → All IsReadable (submitted (io_result set env t p n s) s.events)
unfolding submitted
submitted-Readable set env t p n s io ty hfd hn i = go (io_result set env t p n s) refl
  where
    go :
        (r : Result ℕ (Option IoEvent))
        → io_result set env t p n s ≡ r
        → All IsReadable (submitted r s.events)
    go (err x) h = i.events
    go (ok none) h = i.events
    go (ok (some e)) h =
        let (x, bytes, q, found, same) = io_result-built set env t p n s e h in
        (
          subst (λ e. IsReadable (io_event e)) (sym same)
              (built-Readable set env t p n x bytes io ty hfd hn
                (i.tracked (tgid_of env.pid_tgid) x q)
                (ty.user_buf p.buf_ptr (to_read n) bytes found)),
          i.events,
        )
