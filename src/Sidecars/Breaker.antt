-- ===== src/Sidecars/Breaker.antt =====
-- When a sidecar is launched again after failures (zen_claw/runtime/sidecar_supervisor.py).
use zen_claw.Base.{
  ℕ, suc, ◌+◌, ◌*◌, ◌≤◌, ◌≡◌, refl, ap, Bool, true, false, ◌&&◌, some, List, [], ◌∷◌, ◌++◌, ltb,
  leb, length, keep, count, count-append, length-keep, All, any, arith, max, Bool-cases, inl, inr,
  if◌then◌else◌,
}
use zen_claw.Sidecars.Supervisor.{
  Settings, Watched, new_watched, Probe, Action, spawned, terminated, Round, delay_of, is_recent,
  record_start_failure, launch, start_process, cleanup, is_running, ensure_running,
}

abbrev pub is_spawned : Action → Bool
is_spawned (spawned pid) = true
is_spawned (terminated pid) = false

-- a round that launched a process
unfoldable pub spawns : Round → Bool
spawns r = any is_spawned r.actions

-- The failed starts since the last one that succeeded, newest first: the log that `_failure_history`
-- keeps the recent part of.
unfoldable pub log_start : Probe → List ℕ → List ℕ
log_start p log = if p.has_launcher && p.has_directory && p.came_up then [] else p.failed_at ∷ log

unfoldable pub log_round : Watched → Probe → List ℕ → List ℕ
log_round w p log =
    if ltb p.now w.circuit_open_until
    then log
    else if ltb p.now w.next_retry_at
    then log
    else if is_running w.proc p.proc_alive && p.healthy
    then log
    else if p.healthy_then
    then log
    else log_start p log

unfoldable pub run : Settings → Watched → List ℕ → List Probe → Watched × List ℕ
run cfg w log [] = (w, log)
run cfg w log (p ∷ probes) = run cfg (ensure_running cfg w p).watched (log_round w p log) probes

-- the failures of a log that are recent at `now`
unfoldable pub recent : Settings → ℕ → List ℕ → ℕ
recent cfg now log = count (is_recent cfg now) log

-- the first moment at which the sidecar may be launched
unfoldable pub earliest : Settings → List ℕ → ℕ
earliest cfg [] = 0
earliest cfg (f ∷ log) =
    let open_for =
      if leb cfg.fail_threshold (recent cfg f (f ∷ log)) then 1000 * cfg.circuit_open_sec else 0 in
    max (f + delay_of (length (f ∷ log))) (f + open_for)

-- the history has as many failures as the log that are recent at `f` or later
unfoldable Counts : Settings → Watched → ℕ → List ℕ → Type 0
Counts cfg w f log = (now : ℕ) → f ≤ now → recent cfg now w.failure_history ≡ recent cfg now log

unfoldable newest : List ℕ → ℕ
newest [] = 0
newest (f ∷ log) = f

unfoldable IsSound : Settings → Watched → List ℕ → Type 0
IsSound cfg w log =
    (w.attempts ≡ length log)
    × (earliest cfg log ≤ max w.next_retry_at w.circuit_open_until)
    × Counts cfg w (newest log) log

count-keep :
    (cfg : Settings) (f now : ℕ) (xs : List ℕ)
    → f ≤ now
    → count (is_recent cfg now) (keep (is_recent cfg f) xs) ≡ count (is_recent cfg now) xs
unfolding count keep is_recent
count-keep cfg f now [] h = refl
count-keep cfg f now (x ∷ xs) h = ground (arith, count-keep cfg f now xs h)

recent-history :
    (cfg : Settings) (w : Watched) (log : List ℕ) (t now : ℕ)
    → newest log ≤ t
    → t ≤ now
    → Counts cfg w (newest log) log
    → recent cfg now (keep (is_recent cfg t) (w.failure_history ++ t ∷ []))
      ≡ recent cfg now (t ∷ log)
unfolding Counts recent count
recent-history cfg w log t now hn ht counts = omega (
  arith,
  count-keep cfg t now (w.failure_history ++ t ∷ []) ht,
  count-append (is_recent cfg now) w.failure_history (t ∷ []),
  counts now (omega (arith, hn, ht)),
)

same_delay : (n : ℕ) → delay_of (n + 1) ≡ delay_of (suc n)
same_delay n = ap delay_of (omega arith)

-- the two limits that a failure sets are those of the log
limits :
    (cfg : Settings) (w : Watched) (log : List ℕ) (t counted : ℕ)
    → w.attempts ≡ length log
    → counted ≡ recent cfg t (t ∷ log)
    → earliest cfg (t ∷ log)
      ≤ max (t + delay_of (w.attempts + 1)) (
          if leb cfg.fail_threshold counted
          then t + 1000 * cfg.circuit_open_sec
          else w.circuit_open_until)
unfolding earliest
limits cfg w log t counted ha hc = rw (hc, ha) (ground (arith, same_delay (length log)))

IsSound-record_start_failure :
    (cfg : Settings) (w : Watched) (log : List ℕ) (t : ℕ)
    → newest log ≤ t
    → IsSound cfg w log
    → IsSound cfg (record_start_failure cfg w t) (t ∷ log)
unfolding IsSound Counts record_start_failure earliest newest
IsSound-record_start_failure cfg w log t hn sound =
    let history = keep (is_recent cfg t) (w.failure_history ++ t ∷ []) in
    let counts = recent-history cfg w log t t hn (omega arith) (unfold Counts in sound.2) in
    (
      omega (arith, sound.0),
      limits cfg w log t (length history) sound.0 (
          unfold recent in
          omega (
            arith,
            length-keep (is_recent cfg t) (w.failure_history ++ t ∷ []),
            count-keep cfg t t (w.failure_history ++ t ∷ []) (omega arith),
            counts,
          )),
      λ now ht. recent-history cfg w log t now hn ht (unfold Counts in sound.2),
    )

-- a launch that comes up forgets the failures
IsSound-launched :
    (cfg : Settings) (w : Watched) → w.attempts ≡ 0 → w.failure_history ≡ [] → IsSound cfg w []
unfolding IsSound earliest Counts
IsSound-launched cfg w ha hh = (ha, ground arith, λ now h. ap (recent cfg now) hh)

newest_early : (cfg : Settings) (log : List ℕ) → newest log ≤ earliest cfg log
unfolding newest earliest
newest_early cfg [] = omega arith
newest_early cfg (f ∷ log) = ground arith

IsSound-start_process :
    (cfg : Settings) (w : Watched) (p : Probe) (actions : List Action) (log : List ℕ)
    → newest log ≤ p.failed_at
    → IsSound cfg w log
    → IsSound cfg (start_process cfg w p actions).watched (log_start p log)
unfolding start_process launch log_start
IsSound-start_process cfg w p actions log hn sound = elim (Bool-cases p.has_launcher) [
  | inr e ↦ rw e (IsSound-record_start_failure cfg w log p.failed_at hn sound)
  | inl e ↦ elim (Bool-cases p.has_directory) [
    | inr f ↦ rw (e, f) (IsSound-record_start_failure cfg w log p.failed_at hn sound)
    | inl f ↦ elim (Bool-cases p.came_up) [
      | inl g ↦ rw (e, f, g) (IsSound-launched cfg _ refl refl)
      | inr g ↦
          rw (e, f, g)
            (IsSound-record_start_failure cfg
              (record w { proc = some p.new_pid; started_at = some p.launched_at }) log p.failed_at
              hn (unfold IsSound Counts in sound))
    ]
  ]
]

-- the clock does not go back within a round
abbrev pub IsForward : Probe → Type 0
IsForward p = p.now ≤ p.failed_at

sound_limit :
    (cfg : Settings) (w : Watched) (log : List ℕ)
    → IsSound cfg w log
    → earliest cfg log ≤ max w.next_retry_at w.circuit_open_until
unfolding IsSound
sound_limit cfg w log sound = sound.1

IsSound-ensure_running :
    (cfg : Settings) (w : Watched) (log : List ℕ) (p : Probe)
    → IsForward p
    → IsSound cfg w log
    → IsSound cfg (ensure_running cfg w p).watched (log_round w p log)
unfolding ensure_running log_round start_process log_start launch
IsSound-ensure_running cfg w log p forward sound =
    elim (Bool-cases (ltb p.now w.circuit_open_until)) [
      | inl e ↦ rw e sound
      | inr e ↦ elim (Bool-cases (ltb p.now w.next_retry_at)) [
        | inl f ↦ rw (e, f) sound
        | inr f ↦ elim (Bool-cases (is_running w.proc p.proc_alive && p.healthy)) [
          | inl g ↦ rw (e, f, g) sound
          | inr g ↦ elim (Bool-cases p.healthy_then) [
            | inl h ↦ rw (e, f, g, h) sound
            | inr h ↦
                rw (e, f, g, h)
                  (IsSound-start_process cfg w p (cleanup w.proc p.proc_alive) log
                    (ground
                      (arith, e, f, forward, newest_early cfg log, sound_limit cfg w log sound))
                    sound)
          ]
        ]
      ]
    ]

IsSound-run :
    (cfg : Settings) (probes : List Probe) (w : Watched) (log : List ℕ)
    → All IsForward probes
    → IsSound cfg w log
    → IsSound cfg (run cfg w log probes).0 (run cfg w log probes).1
unfolding run
IsSound-run cfg [] w log forward sound = sound
IsSound-run cfg (p ∷ probes) w log forward sound =
    IsSound-run cfg probes (ensure_running cfg w p).watched (log_round w p log) forward.1
      (IsSound-ensure_running cfg w log p forward.0 sound)

spawns-late :
    (cfg : Settings) (w : Watched) (p : Probe)
    → spawns (ensure_running cfg w p) ≡ true
    → max w.next_retry_at w.circuit_open_until ≤ p.now
unfolding spawns ensure_running any
spawns-late cfg w p h = elim (Bool-cases (ltb p.now w.circuit_open_until)) [
  | inl e ↦ ground (arith, e, h)
  | inr e ↦ elim (Bool-cases (ltb p.now w.next_retry_at)) [
    | inl f ↦ ground (arith, e, f, h)
    | inr f ↦ ground (arith, e, f)
  ]
]

-- In any run of the supervisor from its start, in which the clock does not go back within a round,
-- a sidecar is launched no earlier than the delay after the last failed start that its number of
-- failures in a row asks for, and, where as many of all those failures as the threshold were recent
-- then, no earlier than the circuit stays open after it: forgetting old failures and the order of the
-- checks change nothing.
pub earliest-run :
    (cfg : Settings) (probes : List Probe) (p : Probe)
    → All IsForward probes
    → let (w, log) = run cfg new_watched [] probes in
      spawns (ensure_running cfg w p) ≡ true → earliest cfg log ≤ p.now
earliest-run cfg probes p forward h =
    let (w, log) = run cfg new_watched [] probes in
    omega (
      arith,
      spawns-late cfg w p h,
      sound_limit cfg w log (
          IsSound-run cfg probes new_watched [] forward
            (IsSound-launched cfg new_watched refl refl)),
    )
