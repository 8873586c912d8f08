-- ===== src/Node/EventLog.antt =====
-- The approval events of zen_claw/node/service.py in the order of their clock, and the cut of the log.
use zen_claw.Base.{ℕ, ◌≤◌, ◌≡◌, refl, true, none, List, [], ◌∷◌, ◌++◌, arith, length, keep, ap}
use zen_claw.Node.Data.{Event}
use zen_claw.Node.Events.{NewEvent, trim_events, insert_by_time, sort_by_time, list_approval_events}

-- the clock of the events runs from `lo` to `hi` and never back
abbrev pub Timed : ℕ → ℕ → List Event → Type 0
Timed lo hi [] = lo ≤ hi
Timed lo hi (e ∷ es) = (lo ≤ e.base.at_ms) × Timed e.base.at_ms hi es

-- so does the clock of the events to come
abbrev pub IsMonotone : ℕ → List NewEvent → Type 0
IsMonotone lo [] = Unit
IsMonotone lo (n ∷ ns) = (lo ≤ n.at_ms) × IsMonotone n.at_ms ns

pub insert_first :
    (e : Event) (hi : ℕ) (es : List Event) → Timed e.base.at_ms hi es → insert_by_time e es ≡ e ∷ es
unfolding insert_by_time
insert_first e hi [] h = refl
insert_first e hi (f ∷ fs) h = ground arith

pub sort_of_Timed : (lo hi : ℕ) (es : List Event) → Timed lo hi es → sort_by_time es ≡ es
unfolding sort_by_time
sort_of_Timed lo hi [] h = refl
sort_of_Timed lo hi (e ∷ es) h =
    rw (sort_of_Timed e.base.at_ms hi es h.1) (insert_first e hi es h.1)

pub keep_all : (es : List Event) → keep (λ _. true) es ≡ es
unfolding keep
keep_all [] = refl
keep_all (e ∷ es) = ap (λ l. e ∷ l) (keep_all es)

pub list-of_Timed :
    (lo hi : ℕ) (es : List Event) → Timed lo hi es → list_approval_events es none none ≡ es
unfolding list_approval_events
list-of_Timed lo hi es h = rw keep_all (sort_of_Timed lo hi es h)

pub Timed-append :
    (lo hi : ℕ) (es : List Event) (e : Event)
    → Timed lo hi es
    → hi ≤ e.base.at_ms
    → Timed lo e.base.at_ms (es ++ e ∷ [])
Timed-append lo hi [] e h le = omega arith
Timed-append lo hi (f ∷ fs) e h le = (h.0, Timed-append f.base.at_ms hi fs e h.1 le)

pub Timed-zero : (lo hi : ℕ) (es : List Event) → Timed lo hi es → Timed 0 hi es
Timed-zero lo hi [] h = omega arith
Timed-zero lo hi (e ∷ es) h = (omega arith, h.1)

pub trim_small : (es : List Event) → length es ≤ 2000 → trim_events es ≡ es
unfolding trim_events
trim_small es h = ground arith

pub trim_full : (e : Event) (es : List Event) → length es ≡ 2000 → trim_events (e ∷ es) ≡ es
unfolding trim_events
trim_full e es h = rw h refl
