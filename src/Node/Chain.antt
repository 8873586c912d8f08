-- ===== src/Node/Chain.antt =====
-- The hash chain over the approval events: what `verify_approval_events` says of the events that
-- `_append_approval_event` wrote.
use zen_claw.Base.{
  ℕ, suc, ◌+◌, ◌≤◌, ◌<◌, String, ◌≡◌, refl, false, List, [], ◌∷◌, ◌++◌, arith, ◌==◌, eq_iff, length,
  length-append, ap, ◌∙◌,
}
use native.Mathlib.Decide.{dec_lt}
use zen_claw.Node.Data.{BaseEvent, Event, Config, Codec}
use zen_claw.Node.Events.{
  NewEvent, valid, chain_broken, last_hash, sign, make_event, append_event, verify_from,
  verify_approval_events,
}
use zen_claw.Node.EventLog.{
  Timed, IsMonotone, list-of_Timed, Timed-append, Timed-zero, trim_small, trim_full,
}

module _ (cfg : Config) (codec : Codec) where
  -- the events recorded one after the other from the empty log
  unfoldable pub record_from : List Event → List NewEvent → List Event
  record_from events [] = events
  record_from events (n ∷ ns) = record_from (append_event cfg codec events n) ns

  -- each event is hashed and signed rightly, and holds the hash before it, the first of them `prev`
  abbrev Linked : String → List Event → Type 0
  Linked prev [] = Unit
  Linked prev (e ∷ es) =
      (e.base.prev_hash ≡ prev)
      × (e.hash ≡ codec.sha256 e.base)
      × (e.signature ≡ (sign cfg codec e.base).0)
      × Linked e.hash es

module _ (cfg : Config) (codec : Codec) where
  verify-Linked :
      (prev : String) (n : ℕ) (es : List Event)
      → Linked cfg codec prev es
      → verify_from cfg codec prev n es ≡ valid (n + length es)
  unfolding verify_from sign
  verify-Linked prev n [] h = ground arith
  verify-Linked prev n (e ∷ es) h = ground (
    arith,
    eq_iff e.base.prev_hash prev,
    eq_iff e.hash (codec.sha256 e.base),
    eq_iff e.signature (codec.hmac cfg.audit_secret e.base),
    h.0,
    h.1,
    h.2,
    verify-Linked e.hash (suc n) es h.3,
  )

  -- the hash that the next event will hold
  abbrev after : String → List Event → String
  after prev [] = prev
  after prev (e ∷ es) = after e.hash es

  Linked-append :
      (prev : String) (es : List Event) (e : Event)
      → Linked cfg codec prev es
      → e.base.prev_hash ≡ after prev es
      → e.hash ≡ codec.sha256 e.base
      → e.signature ≡ (sign cfg codec e.base).0
      → Linked cfg codec prev (es ++ e ∷ [])
  Linked-append prev [] e h p q r = (p, q, r, tt)
  Linked-append prev (f ∷ fs) e h p q r = (h.0, h.1, h.2, Linked-append f.hash fs e h.3 p q r)

  after-last_hash :
      (prev : String) (e : Event) (es : List Event) → last_hash (e ∷ es) ≡ after prev (e ∷ es)
  unfolding last_hash
  after-last_hash prev e [] = refl
  after-last_hash prev e (f ∷ fs) = after-last_hash e.hash f fs

  length-append_event :
      (events : List Event) (n : NewEvent)
      → length events < 2000
      → length (append_event cfg codec events n) ≡ length events + 1
  unfolding append_event
  length-append_event events n room =
      let new = make_event cfg codec events n in
      let longer : length (events ++ new ∷ []) ≡ length events + 1 =
        length-append events (new ∷ []) in
      rw (trim_small (events ++ new ∷ []) (omega arith)) longer

  -- a log that has not been cut
  record IsWhole (hi : ℕ) (events : List Event) : Type 0 where
    linked : Linked cfg codec "" events
    timed : Timed 0 hi events
    fits : length events ≤ 2000

  -- a log that has been cut: its first event holds the hash of one that is gone
  record IsCut (hi : ℕ) (events : List Event) : Type 0 where
    prev : String
    lost : (prev == "") ≡ false
    linked : Linked cfg codec prev events
    timed : Timed 0 hi events
    full : length events ≡ 2000

  last_hash-after : (events : List Event) → last_hash events ≡ after "" events
  unfolding last_hash
  last_hash-after [] = refl
  last_hash-after (e ∷ es) = after-last_hash "" e es

  append-Linked :
      (prev : String) (e : Event) (es : List Event) (n : NewEvent)
      → Linked cfg codec prev (e ∷ es)
      → Linked cfg codec prev ((e ∷ es) ++ make_event cfg codec (e ∷ es) n ∷ [])
  unfolding make_event
  append-Linked prev e es n h =
      Linked-append prev (e ∷ es) (make_event cfg codec (e ∷ es) n) h (after-last_hash prev e es)
        refl refl

  append-IsWhole :
      (hi : ℕ) (events : List Event) (n : NewEvent)
      → IsWhole hi events
      → hi ≤ n.at_ms
      → length events < 2000
      → IsWhole n.at_ms (append_event cfg codec events n)
  unfolding append_event make_event
  append-IsWhole hi events n w later room =
      let new : Event = make_event cfg codec events n in
      let small : length (events ++ new ∷ []) ≤ 2000 =
        omega (arith, length-append events (new ∷ [])) in
      rw (trim_small (events ++ new ∷ []) small) (record {
        linked = Linked-append "" events new w.linked (last_hash-after events) refl refl;
        timed = Timed-append 0 hi events new w.timed later;
        fits = small;
      })

  -- one more event than fits: the first is dropped, and its hash stays in the next
  append-IsCut :
      (prev : String) (hi : ℕ) (events : List Event) (n : NewEvent)
      → ((b : BaseEvent) → (codec.sha256 b == "") ≡ false)
      → Linked cfg codec prev events
      → Timed 0 hi events
      → length events ≡ 2000
      → hi ≤ n.at_ms
      → IsCut n.at_ms (append_event cfg codec events n)
  unfolding append_event make_event
  append-IsCut prev hi [] n solid linked timed full later = absurd (omega arith)
  append-IsCut prev hi (e ∷ es) n solid linked timed full later =
      let new : Event = make_event cfg codec (e ∷ es) n in
      let same : length (es ++ new ∷ []) ≡ 2000 = omega (arith, length-append es (new ∷ [])) in
      rw (trim_full e (es ++ new ∷ []) same) (record {
        prev = e.hash;
        lost = rw linked.1 (solid e.base);
        linked = (append-Linked prev e es n linked).3;
        timed =
            Timed-zero e.base.at_ms n.at_ms (es ++ new ∷ [])
              (Timed-append e.base.at_ms hi es new timed.1 later);
        full = same;
      })

  IsWhole-from :
      (hi : ℕ) (events : List Event) (ns : List NewEvent)
      → IsWhole hi events
      → IsMonotone hi ns
      → length events + length ns ≤ 2000
      → (last : ℕ) × IsWhole last (record_from cfg codec events ns)
        × (length (record_from cfg codec events ns) ≡ length events + length ns)
  unfolding record_from
  IsWhole-from hi events [] w mono short = (hi, w, omega arith)
  IsWhole-from hi events (n ∷ ns) w mono short =
      let room : length events < 2000 = omega arith in
      let (last, whole, total) =
        IsWhole-from n.at_ms (append_event cfg codec events n) ns
          (append-IsWhole hi events n w mono.0 room) mono.1
          (omega (arith, length-append_event events n room)) in
      (last, whole, omega (arith, length-append_event events n room))

  -- The events recorded from the empty log, as many as 2000 with a clock that never runs back, are
  -- all found valid: none is missing, and no hash or signature differs.
  pub verify-record_from :
      (ns : List NewEvent)
      → IsMonotone 0 ns
      → length ns ≤ 2000
      → verify_approval_events cfg codec (record_from cfg codec [] ns) ≡ valid (length ns)
  unfolding verify_approval_events
  verify-record_from ns mono short =
      let start : IsWhole 0 [] = record { linked = tt; timed = omega arith; fits = omega arith } in
      let (last, whole, total) = IsWhole-from 0 [] ns start mono (omega arith) in
      rw (list-of_Timed 0 last _ whole.timed)
        (verify-Linked "" 0 _ whole.linked ∙ ap valid (omega arith))

  IsCut-from :
      (hi : ℕ) (events : List Event) (ns : List NewEvent)
      → ((b : BaseEvent) → (codec.sha256 b == "") ≡ false)
      → IsCut hi events
      → IsMonotone hi ns
      → (last : ℕ) × IsCut last (record_from cfg codec events ns)
  unfolding record_from
  IsCut-from hi events [] solid c mono = (hi, c)
  IsCut-from hi events (n ∷ ns) solid c mono =
      IsCut-from n.at_ms (append_event cfg codec events n) ns solid
        (append-IsCut c.prev hi events n solid c.linked c.timed c.full mono.0) mono.1

  overflow_from :
      (hi : ℕ) (events : List Event) (ns : List NewEvent)
      → ((b : BaseEvent) → (codec.sha256 b == "") ≡ false)
      → IsWhole hi events
      → IsMonotone hi ns
      → 2000 < length events + length ns
      → (last : ℕ) × IsCut last (record_from cfg codec events ns)
  unfolding record_from
  overflow_from hi events [] solid w mono long = absurd (omega (arith, w.fits))
  overflow_from hi events (n ∷ ns) solid w mono long = elim (dec_lt (length events) 2000) [
    | yes room ↦
        overflow_from n.at_ms (append_event cfg codec events n) ns solid
          (append-IsWhole hi events n w mono.0 room) mono.1
          (omega (arith, length-append_event events n room))
    | no full ↦
        IsCut-from n.at_ms (append_event cfg codec events n) ns solid
          (append-IsCut "" hi events n solid w.linked w.timed (omega (arith, w.fits)) mono.0) mono.1
  ]

  cut-broken :
      (hi : ℕ) (events : List Event)
      → IsCut hi events
      → verify_from cfg codec "" 0 events ≡ chain_broken 0
  unfolding verify_from
  cut-broken hi [] c = absurd (omega (arith, c.full))
  cut-broken hi (e ∷ es) c = ground (arith, c.lost, c.linked.0)

  -- If SHA-256 never gives the empty text, then once more than 2000 events have been recorded from
  -- the empty log, with a clock that never runs back, the check of the untouched log fails at its
  -- first event, with a broken chain.
  pub verify-record_from_long :
      (ns : List NewEvent)
      → ((b : BaseEvent) → (codec.sha256 b == "") ≡ false)
      → IsMonotone 0 ns
      → 2000 < length ns
      → verify_approval_events cfg codec (record_from cfg codec [] ns) ≡ chain_broken 0
  unfolding verify_approval_events
  verify-record_from_long ns solid mono long =
      let start : IsWhole 0 [] = record { linked = tt; timed = omega arith; fits = omega arith } in
      let (last, c) = overflow_from 0 [] ns solid start mono (omega arith) in
      rw (list-of_Timed 0 last _ c.timed) (cut-broken last _ c)
