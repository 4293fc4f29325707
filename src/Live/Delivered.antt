-- ===== src/Live/Delivered.antt =====
-- What the live tail delivers.
use shellspectre.Base.{
  ℕ, zero, suc, ◌≡◌, refl, sym, ap, ◌∙◌, Bool, some, List, [], ◌∷◌, ◌++◌, Text, Map, All, length,
  take, drop,
}
use mathlib.Core.List.{append-nil, append_assoc}
use shellspectre.Database.{Row}
use shellspectre.Reads.Cursor.{AreIncreasing, after, last_of, after-last_of, after-append}
use shellspectre.Live.{
  Message, keepalive, patch_elements, patch_signals, Tail, last_event_id, tick, poll, live_events,
}
use shellspectre.Query.Parse.{EventFilter}
use shellspectre.Reads.{EventSummary}
use shellspectre.Reads.Selected.{summary_ids, selected_ids, list_since-selected}
use shellspectre.Repository.Patterns.{IsLike}

-- The identifiers of the rows in the messages.
pub delivered : List Message → List ℕ
delivered [] = []
delivered (keepalive ∷ ms) = delivered ms
delivered (patch_elements events last ∷ ms) = summary_ids events ++ delivered ms
delivered (patch_signals count ∷ ms) = delivered ms

delivered-append : (ms ns : List Message) → delivered (ms ++ ns) ≡ delivered ms ++ delivered ns
unfolding delivered
delivered-append [] ns = refl
delivered-append (keepalive ∷ ms) ns = delivered-append ms ns
delivered-append (patch_elements events last ∷ ms) ns =
    ap (λ ids. summary_ids events ++ ids) (delivered-append ms ns)
    ∙ sym (append_assoc (summary_ids events) (delivered ms) (delivered ns))
delivered-append (patch_signals count ∷ ms) ns = delivered-append ms ns

take-prefix : (n : ℕ) (xs ys : List ℕ) → take (length (take n xs)) (xs ++ ys) ≡ take n xs
take-prefix zero xs ys = refl
take-prefix (suc n) [] ys = refl
take-prefix (suc n) (x ∷ xs) ys = ap (λ rest. x ∷ rest) (take-prefix n xs ys)

take-drop : (n : ℕ) (xs : List ℕ) → take n xs ++ drop n xs ≡ xs
take-drop zero xs = refl
take-drop (suc n) [] = refl
take-drop (suc n) (x ∷ xs) = ap (λ rest. x ∷ rest) (take-drop n xs)

last_event_id-last_of :
    (held : ℕ) (events : List EventSummary)
    → last_event_id held events ≡ last_of held (summary_ids events)
unfolding last_event_id last_of
last_event_id-last_of held [] = refl
last_event_id-last_of held (event ∷ events) = last_event_id-last_of event.id events

-- What a tick sends, and where the cursor then is.
tick_sends :
    (events : List EventSummary) (tail : Tail)
    → (delivered (tick (some events) tail).0 ≡ summary_ids events)
      × ((tick (some events) tail).1.last_seen_id ≡ last_of tail.last_seen_id (summary_ids events))
unfolding tick delivered
tick_sends [] tail = (refl, unfold last_of in refl)
tick_sends (event ∷ events) tail = (
  append-nil (summary_ids (event ∷ events)),
  last_event_id-last_of tail.last_seen_id (event ∷ events),
)

module _ (same : ℕ → ℕ → Bool) (like : Text → Text → Bool) (laws : IsLike same like)
    (users : Map Text) (filter : EventFilter) where
  -- A tick sends the first hundred selected rows behind the cursor, and puts the cursor on the last of
  -- them.
  poll_sends :
      (table : List Row) (tail : Tail)
      → (delivered (poll like users filter table tail).0
          ≡ take 100 (after tail.last_seen_id (selected_ids same like laws users filter table)))
        × ((poll like users filter table tail).1.last_seen_id
            ≡ last_of tail.last_seen_id (
                take 100
                  (after tail.last_seen_id (selected_ids same like laws users filter table))))
  unfolding poll
  poll_sends table tail =
      let (events, e, ids) =
        list_since-selected same like laws users filter table tail.last_seen_id in
      let (sent, moved) = tick_sends events tail in
      rw e (sent ∙ ids, moved ∙ ap (last_of tail.last_seen_id) ids)

  -- If the identifiers of the selected rows increase, a tick sends the first hundred selected rows
  -- behind the cursor, and all but these are behind the new cursor.
  poll_pending :
      (table : List Row) (tail : Tail) (low : ℕ)
      → AreIncreasing low (selected_ids same like laws users filter table)
      → (delivered (poll like users filter table tail).0
          ≡ take 100 (after tail.last_seen_id (selected_ids same like laws users filter table)))
        × (after
              (poll like users filter table tail).1.last_seen_id
              (selected_ids same like laws users filter table)
            ≡ drop 100 (after tail.last_seen_id (selected_ids same like laws users filter table)))
  poll_pending table tail low o =
      let (sent, moved) = poll_sends table tail in
      (
        sent,
        ap (λ c. after c (selected_ids same like laws users filter table)) moved
            ∙ after-last_of tail.last_seen_id low 100
                (selected_ids same like laws users filter table) o,
      )

  -- The selected rows of a table are the first ones of the final ones.
  abbrev pub IsEarlier : List ℕ → List Row → Type 0
  IsEarlier final table =
      (more : List ℕ) × (final ≡ selected_ids same like laws users filter table ++ more)

  poll_final :
      (final : List ℕ) (low : ℕ) (table : List Row) (tail : Tail)
      → AreIncreasing low final
      → IsEarlier final table
      → delivered (poll like users filter table tail).0
          ++ after (poll like users filter table tail).1.last_seen_id final
        ≡ after tail.last_seen_id final
  poll_final final low table tail o (more, e) =
      let cursor = tail.last_seen_id in
      let pending = after cursor (selected_ids same like laws users filter table) in
      let sent = take 100 pending in
      let (d, moved) = poll_sends table tail in
      let parts : after cursor final ≡ pending ++ after cursor more =
        ap (after cursor) e
        ∙ after-append cursor (selected_ids same like laws users filter table) more in
      let first : sent ≡ take (length sent) (after cursor final) =
        sym (ap (take (length sent)) parts ∙ take-prefix 100 pending (after cursor more)) in
      ap (λ c. delivered (poll like users filter table tail).0 ++ after c final) moved
      ∙ ap (λ ids. ids ++ after (last_of cursor sent) final) d
      ∙ ap (λ ids. ids ++ after (last_of cursor ids) final) first
      ∙ ap (λ ids. take (length sent) (after cursor final) ++ ids)
          (after-last_of cursor low (length sent) final o)
      ∙ take-drop (length sent) (after cursor final)

  -- Over any sequence of ticks on a growing table, the rows that were sent and those that are still behind
  -- the cursor are the selected rows behind the first cursor: none is lost, none is sent twice, and they
  -- come in the order of their identifiers. The selected rows' identifiers increase, and rows come at
  -- the end.
  pub live_events_complete :
      (tables : List (List Row)) (tail : Tail) (final : List ℕ) (low : ℕ)
      → AreIncreasing low final
      → All (IsEarlier final) tables
      → delivered (live_events like users filter tables tail).0
          ++ after (live_events like users filter tables tail).1.last_seen_id final
        ≡ after tail.last_seen_id final
  unfolding live_events
  live_events_complete [] tail final low o h = unfold delivered in refl
  live_events_complete (table ∷ tables) tail final low o h =
      let next = (poll like users filter table tail).1 in
      let sent = (poll like users filter table tail).0 in
      let later = live_events like users filter tables next in
      let rest = live_events_complete tables next final low o h.1 in
      ap (λ ids. ids ++ after later.1.last_seen_id final) (delivered-append sent later.0)
      ∙ append_assoc (delivered sent) (delivered later.0) (after later.1.last_seen_id final)
      ∙ ap (λ ids. delivered sent ++ ids) rest
      ∙ poll_final final low table tail o h.0
