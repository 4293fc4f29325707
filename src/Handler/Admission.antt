-- ===== src/Handler/Admission.antt =====
-- What a handled event is to do: the rules of the filter and the call of the sink.
use shellspectre.Base.{
  ◌≡◌, ◌≢◌, ◌↔◌, inl, inr, refl, sym, Bool, true, false, Bool-cases, arith, if◌then◌else◌,
}
use shellspectre.Wire.{EventHeader}
use shellspectre.SessionId.{SessionId}
use shellspectre.Session.{SessionCorrelator, EventInfo, ancestor_comms}
use shellspectre.Event.Fields.{c_text}
use shellspectre.Filter.{
  FilterConfig, FilterInput, Admits, no_filters, passes_filter_iff, passes_filter_open,
}
use shellspectre.Handler.{SessionInfo, SinkCall, Outcome, silent, delivered, admitted}

-- What the correlator, the filter and the sink are told of an event, by the fields of its header.
abbrev pub header_info : EventHeader → EventInfo
header_info h = record {
  pid = h.pid;
  ppid = h.ppid;
  tty_nr = h.tty_nr;
  comm = c_text h.comm;
  execution_id = h.execution_id;
}

abbrev pub header_input : EventHeader → SessionCorrelator → FilterInput
header_input h c = record {
  tty_nr = h.tty_nr;
  comm = c_text h.comm;
  ancestor_comms = ancestor_comms h.pid c;
}

abbrev pub header_session : SessionId → EventHeader → SessionInfo
header_session sid h = record {
  session_id = sid;
  pid = h.pid;
  comm = c_text h.comm;
  uid = h.uid;
  euid = h.euid;
  tty_nr = h.tty_nr;
  cgroup_id = h.cgroup_id;
}

-- The call reaches the sink exactly if P, and nothing does exactly if not.
abbrev pub ReachesIff : Outcome → SinkCall → Type 0 → Type 0
ReachesIff out call P = ((out ≡ delivered call) ↔ P) × ((out ≡ silent) ↔ ¬ P)

delivered-ne-silent : (call : SinkCall) → delivered call ≢ silent
delivered-ne-silent call h = ground (arith, h)

pub reaches :
    (b : Bool) (call : SinkCall) (P : Type 0)
    → (b ≡ true) ↔ P
    → ReachesIff (if b then delivered call else silent) call P
reaches true call P h = (
  (λ _. h.0 refl, λ _. refl),
  (λ e. absurd (delivered-ne-silent call e), λ n. absurd (n (h.0 refl))),
)
reaches false call P h = (
  (λ e. absurd (delivered-ne-silent call (sym e)), λ p. absurd (ground (arith, h.1 p))),
  (λ _ p. absurd (ground (arith, h.1 p)), λ _. refl),
)

pub admitted_iff :
    (config : FilterConfig) (h : EventHeader) (c : SessionCorrelator)
    → (admitted config h.pid h.tty_nr (c_text h.comm) c ≡ true) ↔ Admits config (header_input h c)
unfolding admitted
admitted_iff config h c = elim (Bool-cases (no_filters config)) [
  | inl unfiltered ↦ rw unfiltered (
    λ _.
        (passes_filter_iff config (header_input h c)).0
          (passes_filter_open config (header_input h c) unfiltered),
    λ _. refl,
  )
  | inr closed ↦ rw closed (passes_filter_iff config (header_input h c))
]
