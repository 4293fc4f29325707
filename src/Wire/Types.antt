-- ===== src/Wire/Types.antt =====
-- Event types and their codes.
use shellspectre.Base.{
  ℕ, ◌≤◌, ◌<◌, ◌≡◌, refl, ◌≢◌, ◌↔◌, ◌⊎◌, inl, inr, true, none, some, List, [], arith, Option-cases,
  is_some, length, Text, codes, text_eq, text_eq_iff, ok, err,
}
use shellspectre.Wire.{
  EventType, exec, read, write, exit, from_wire, as_wire, as_str, from_str, EventHeader,
  decoded_event_type, header_try_from, header_at, header_size, wire_version, buffer_too_short,
  invalid_wire_version, invalid_event_type,
}

pub from_wire-as_wire : (t : EventType) → from_wire (as_wire t) ≡ some t
unfolding from_wire as_wire
from_wire-as_wire exec = refl
from_wire-as_wire _ = refl

-- A wire discriminant and a name each decode to an event type exactly when they are that type's
-- own, so that both encodings are injective and the reserved discriminant 1 is refused.
pub event_type_codes :
    (t : EventType) (n : ℕ) (s : Text)
    → ((from_wire n ≡ some t) ↔ (n ≡ as_wire t)) × ((from_str s ≡ some t) ↔ (s ≡ as_str t))
unfolding from_wire as_wire from_str as_str text_eq
event_type_codes exec n s = (
  (λ e. ground arith, λ e. ground arith),
  (λ e. ground (arith, text_eq_iff s (codes "exec")), λ e. rw e),
)
event_type_codes read n s = (
  (λ e. ground arith, λ e. ground arith),
  (λ e. ground (arith, text_eq_iff s (codes "read")), λ e. rw e),
)
event_type_codes write n s = (
  (λ e. ground arith, λ e. ground arith),
  (λ e. ground (arith, text_eq_iff s (codes "write")), λ e. rw e),
)
event_type_codes exit n s = (
  (λ e. ground arith, λ e. ground arith),
  (λ e. ground (arith, text_eq_iff s (codes "exit")), λ e. rw e),
)

-- `header_try_from` reads exactly the buffers that hold a whole header of this version with a known
-- event type; any other buffer gives the error of the first check that it fails.
pub header_try_from-checks :
    (bytes : List ℕ)
    → let h = header_at bytes in
      ((header_try_from bytes ≡ ok h)
        × (header_size ≤ length bytes)
        × (h.version ≡ wire_version)
        × (is_some (from_wire h.event_type) ≡ true))
      ⊎ ((header_try_from bytes ≡ err (buffer_too_short header_size (length bytes)))
          × (length bytes < header_size))
      ⊎ ((header_try_from bytes ≡ err (invalid_wire_version h.version))
          × (header_size ≤ length bytes)
          × (h.version ≢ wire_version))
      ⊎ ((header_try_from bytes ≡ err (invalid_event_type h.event_type))
          × (header_size ≤ length bytes)
          × (h.version ≡ wire_version)
          × (from_wire h.event_type ≡ none))
unfolding header_try_from
header_try_from-checks bytes = ground arith

-- A header that is read is one that the consumer can decode, and has its event type.
pub header_try_from-decoded :
    (bytes : List ℕ) (h : EventHeader)
    → header_try_from bytes ≡ ok h
    → (t : EventType) × (decoded_event_type h ≡ some t)
      × (h.event_type ≡ as_wire t)
      × (h.version ≡ wire_version)
      × (header_size ≤ length bytes)
unfolding header_try_from decoded_event_type
header_try_from-decoded bytes h e = elim (Option-cases (from_wire (header_at bytes).event_type)) [
  | inl bad ↦ absurd (ground (arith, bad))
  | inr (t, known) ↦ (
    t,
    ground (arith, known),
    ground (arith, known, event_type_codes t (header_at bytes).event_type []),
    ground (arith, known),
    ground (arith, known),
  )
]
