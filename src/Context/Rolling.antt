-- ===== src/Context/Rolling.antt =====
-- What the rolling summary of a session covers (zen_claw/agent/loop.py,
-- zen_claw/agent/context_compression.py).
use zen_claw.Base.{
  ℕ, zero, suc, ◌-◌, ◌≤◌, String, ◌≡◌, refl, sym, ap, ◌∙◌, Bool, true, false, ◌&&◌, ◌||◌, Option,
  none, some, List, [], ◌∷◌, ◌++◌, ◌==◌, ltb, leb, length, take, drop, take-append-drop,
  length-append, arith, Bool-cases, inl, inr, if◌then◌else◌,
}
use zen_claw.Base.Text.{strip}
use zen_claw.Context.Session.{Message, Session, new_session, add_message, clear}
use zen_claw.Context.Compressor.{ContextCompressor, CompressionPlan, plan, build_prompt}
use zen_claw.Context.History.{
  AgentLoop, Event, said, asked, cleared, should_compress_by_token_budget, summarized, answered,
  carried_out, plan_of, with_plan, build_history, clear_command, step,
}

-- the messages that a summary has taken in: those of the prompt, where the answer is a text
abbrev pub segment_in : CompressionPlan → Option String → List Message
segment_in p none = []
segment_in p (some answer) = if strip answer == "" then [] else p.prefix_messages

unfoldable pub segment_of :
    AgentLoop → Session → (String → Option String) → Option CompressionPlan → List Message
segment_of a s chat none = []
segment_of a s chat (some p) =
    segment_in p (chat (build_prompt a.compressor p.prefix_messages s.metadata.rolling_summary))

-- what the summaries have taken in so far, since the last `/clear`
unfoldable pub taken_in : AgentLoop → Session → List Message → Event → List Message
taken_in a s log (said role content) = log
taken_in a s log (asked counted chat) =
    log ++ segment_of a s chat (plan_of a s (should_compress_by_token_budget a s counted))
taken_in a s log cleared = []

unfoldable pub run : AgentLoop → Session → List Message → List Event → Session × List Message
run a s log [] = (s, log)
run a s log (e ∷ events) = run a (step a s e) (taken_in a s log e) events

module _ {ℓ} {A : Type ℓ} where
  take-append_within : (n : ℕ) (xs ys : List A) → n ≤ length xs → take n (xs ++ ys) ≡ take n xs
  take-append_within zero xs ys h = refl
  take-append_within (suc n) [] ys h = ground (arith, h)
  take-append_within (suc n) (x ∷ xs) ys h =
      ap (λ l. x ∷ l) (take-append_within n xs ys (omega (arith, h)))

  take-append-drop_within :
      (m n : ℕ) (xs : List A) → m ≤ n → take m xs ++ drop m (take n xs) ≡ take n xs
  take-append-drop_within zero n xs h = refl
  take-append-drop_within (suc m) zero xs h = ground (arith, h)
  take-append-drop_within (suc m) (suc n) [] h = refl
  take-append-drop_within (suc m) (suc n) (x ∷ xs) h =
      ap (λ l. x ∷ l) (take-append-drop_within m n xs (omega (arith, h)))

  append_nil : (xs : List A) → xs ++ [] ≡ xs
  append_nil [] = refl
  append_nil (x ∷ xs) = ap (λ l. x ∷ l) (append_nil xs)

-- `log` is the messages before `upto`, in order
abbrev Covers : List Message → ℕ → List Message → Type 0
Covers messages upto log = (log ≡ take upto messages) × (upto ≤ length messages)

Covers-plan :
    (c : ContextCompressor) (messages : List Message) (upto : ℕ) (log : List Message)
    → Covers messages upto log
    → Covers messages
        (plan c messages upto).summarized_upto
        (log ++ (plan c messages upto).prefix_messages)
unfolding plan
Covers-plan c messages upto log cov =
    let cutoff = length messages - c.keep_recent in
    elim (Bool-cases (leb (length messages) c.trigger_messages)) [
      | inl e ↦ rw e (append_nil log ∙ cov.0, cov.1)
      | inr e ↦ elim (Bool-cases (leb cutoff upto)) [
        | inl f ↦ rw (e, f) (append_nil log ∙ cov.0, cov.1)
        | inr f ↦
            elim (Bool-cases (ltb (length (drop upto (take cutoff messages))) c.min_new_messages)) [
              | inl g ↦ rw (e, f, g) (append_nil log ∙ cov.0, cov.1)
              | inr g ↦
                  rw (e, f, g)
                    (
                      ap (λ l. l ++ drop upto (take cutoff messages)) cov.0
                          ∙ take-append-drop_within upto cutoff messages (ground (arith, f)),
                      omega arith,
                    )
            ]
      ]
    ]

-- The session, with a log of the messages taken in.
unfoldable IsRolling : Session → List Message → Type 0
IsRolling s log = Covers s.messages s.metadata.rolling_summary_upto log

-- The second look at the messages, which is to force a pass for the token budget, sees the same plan:
-- a plan is carried out exactly where `plan` says so, or where the budget asks for one and there are
-- no more messages than are kept.
pub plan_of-plan :
    (a : AgentLoop) (s : Session) (by_tokens : Bool)
    → let p = plan a.compressor s.messages s.metadata.rolling_summary_upto in
      plan_of a s by_tokens ≡ (
        if p.should_compress || by_tokens && leb (length s.messages) a.compressor.keep_recent
        then some p
        else none)
unfolding plan_of
plan_of-plan a s by_tokens =
    rw (take-append-drop (length s.messages - a.compressor.keep_recent) s.messages) (ground arith)

Covers-segment :
    (messages : List Message) (upto : ℕ) (log : List Message)
    → Covers messages upto log
    → Covers messages upto (log ++ [])
Covers-segment messages upto log cov = (append_nil log ∙ cov.0, cov.1)

IsRolling-answered :
    (a : AgentLoop) (s : Session) (log : List Message) (by_tokens : Bool) (answer : Option String)
    → IsRolling s log
    → let p = plan a.compressor s.messages s.metadata.rolling_summary_upto in
      IsRolling (answered a s p by_tokens answer).0 (log ++ segment_in p answer)
unfolding IsRolling
IsRolling-answered a s log by_tokens none cov =
    Covers-segment s.messages s.metadata.rolling_summary_upto log cov
IsRolling-answered a s log by_tokens (some answer) cov = elim (Bool-cases (strip answer == "")) [
  | inl e ↦ rw e (Covers-segment s.messages s.metadata.rolling_summary_upto log cov)
  | inr e ↦
      unfold summarized in
      rw e (Covers-plan a.compressor s.messages s.metadata.rolling_summary_upto log cov)
]

IsRolling-with_plan :
    (a : AgentLoop) (s : Session) (log : List Message) (by_tokens : Bool)
    (chat : String → Option String) (do_it : Bool)
    → IsRolling s log
    → let p = plan a.compressor s.messages s.metadata.rolling_summary_upto in
      let planned = if do_it then some p else none in
      IsRolling (with_plan a s by_tokens chat planned).0 (log ++ segment_of a s chat planned)
unfolding segment_of carried_out
IsRolling-with_plan a s log by_tokens chat true r =
    IsRolling-answered a s log by_tokens
      (chat (
        build_prompt a.compressor
          (plan a.compressor s.messages s.metadata.rolling_summary_upto).prefix_messages
          s.metadata.rolling_summary))
      r
IsRolling-with_plan a s log by_tokens chat false r =
    unfold IsRolling in
    Covers-segment s.messages s.metadata.rolling_summary_upto log (unfold IsRolling in r)

IsRolling-build_history :
    (a : AgentLoop) (s : Session) (log : List Message) (counted : Option ℕ)
    (chat : String → Option String)
    → IsRolling s log
    → IsRolling
        (build_history a s counted chat).0
        (log ++ segment_of a s chat (plan_of a s (should_compress_by_token_budget a s counted)))
unfolding build_history
IsRolling-build_history a s log counted chat r =
    let by_tokens = should_compress_by_token_budget a s counted in
    let p = plan a.compressor s.messages s.metadata.rolling_summary_upto in
    rw (plan_of-plan a s by_tokens) (
      IsRolling-with_plan a s log by_tokens chat
        (p.should_compress || by_tokens && leb (length s.messages) a.compressor.keep_recent) r)

IsRolling-step :
    (a : AgentLoop) (s : Session) (log : List Message) (e : Event)
    → IsRolling s log
    → IsRolling (step a s e) (taken_in a s log e)
unfolding IsRolling step taken_in add_message clear_command clear
IsRolling-step a s log (said role content) r =
    let more = (record { role = role; content = content }) ∷ [] in
    (
      r.0 ∙ sym (take-append_within s.metadata.rolling_summary_upto s.messages more r.1),
      omega (arith, r.1, length-append s.messages more),
    )
IsRolling-step a s log (asked counted chat) r = IsRolling-build_history a s log counted chat r
IsRolling-step a s log cleared r = (refl, omega arith)

IsRolling-run :
    (a : AgentLoop) (events : List Event) (s : Session) (log : List Message)
    → IsRolling s log
    → IsRolling (run a s log events).0 (run a s log events).1
unfolding run
IsRolling-run a [] s log r = r
IsRolling-run a (e ∷ events) s log r =
    IsRolling-run a events (step a s e) (taken_in a s log e) (IsRolling-step a s log e r)

-- After any messages, compressions and `/clear` commands of a new session, whatever the model answers
-- or where its call fails, the messages that the rolling summaries have taken in since the last
-- `/clear` are exactly those before `rolling_summary_upto`, each once and in order.
pub taken_in-run :
    (a : AgentLoop) (events : List Event)
    → let (s, log) = run a new_session [] events in
      (log ≡ take s.metadata.rolling_summary_upto s.messages)
      × (s.metadata.rolling_summary_upto ≤ length s.messages)
taken_in-run a events =
    unfold IsRolling in
    IsRolling-run a events new_session [] (unfold IsRolling in (refl, omega arith))
