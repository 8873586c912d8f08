-- ===== src/Routing/Parsing.antt =====
-- Reading a key back into its parts (zen_claw/channels/routing.py).
use zen_claw.Base.{
  ℕ, suc, ◌+◌, String, ◌≡◌, refl, ap, ◌∙◌, Bool, true, false, not, ◌&&◌, ◌||◌, none, some, ◌==◌,
  eqb, arith, Bool-cases, inl, inr, if◌then◌else◌,
}
use zen_claw.Base.Text.{norm, strip}
use zen_claw.Base.Strings.{before, drop_chars, size}
use Prim.Native.Char.{code}
use Prim.Native.String.{◌++◌}
use text.Mathlib.TextLemmas.{nil-append, cons-append}
use zen_claw.Routing.Store.{Address, make_route_key, route_key_of}
use zen_claw.Routing.AuditLog.{parse_route_key}

unfoldable pub has_no_colon : String → Bool
has_no_colon String.[] = true
has_no_colon (String.◌∷◌ c s) = not (eqb (code c) 58) && has_no_colon s

-- a colon before a text
colon_cons : (rest : String) → ":" ++ rest ≡ String.◌∷◌ ":" rest
colon_cons rest = cons-append ":" "" rest ∙ ap (λ t. String.◌∷◌ ":" t) (nil-append rest)

before-append : (s rest : String) → has_no_colon s ≡ true → before ":" (s ++ (":" ++ rest)) ≡ s
unfolding before has_no_colon
before-append String.[] rest h = rw (nil-append (":" ++ rest), colon_cons rest) refl
before-append (String.◌∷◌ c s) rest h = elim (Bool-cases (eqb (code c) 58)) [
  | inl e ↦ ground (arith, e, h)
  | inr e ↦
      rw (cons-append c s (":" ++ rest), e)
        (ap (λ t. String.◌∷◌ c t) (before-append s rest (ground (arith, e, h))))
]

plus_one : (n : ℕ) → n + 1 ≡ suc n
plus_one n = omega arith

drop_chars-append : (s rest : String) → drop_chars (suc (size s)) (s ++ (":" ++ rest)) ≡ rest
unfolding drop_chars size
drop_chars-append String.[] rest = rw (nil-append (":" ++ rest), colon_cons rest) refl
drop_chars-append (String.◌∷◌ c s) rest =
    rw (cons-append c s (":" ++ rest)) (drop_chars-append s rest)

parse_route_key-route_key_of :
    (ch chat user : String)
    → has_no_colon ch ≡ true
    → has_no_colon chat ≡ true
    → parse_route_key (route_key_of ch chat user)
      ≡ record { channel = ch; chat_id = chat; user_id = user }
unfolding parse_route_key route_key_of
parse_route_key-route_key_of ch chat user hc ht =
    rw
      (
        before-append ch (chat ++ (":" ++ user)) hc,
        plus_one (size ch),
        drop_chars-append ch (chat ++ (":" ++ user)),
        before-append chat user ht,
        plus_one (size chat),
        drop_chars-append chat user,
      )
      refl

key_of : (k key : String) (b : Bool) → (if b then none else some k) ≡ some key → k ≡ key
key_of k key true h = cc
key_of k key false h = cc

-- Where neither the channel nor the chat of an address has a colon in its name, `_parse_route_key`
-- reads the channel, the chat and the user back from the key that `make_route_key` gives, whatever the
-- user's name.
pub parse_route_key-make_route_key :
    (a : Address) (key : String)
    → make_route_key a ≡ some key
    → has_no_colon (norm a.channel) ≡ true
    → has_no_colon (strip a.chat_id) ≡ true
    → parse_route_key key
      ≡ record { channel = norm a.channel; chat_id = strip a.chat_id; user_id = strip a.user_id }
unfolding make_route_key
parse_route_key-make_route_key a key made hc ht =
    let k = route_key_of (norm a.channel) (strip a.chat_id) (strip a.user_id) in
    rw⁻¹
      (key_of k key (norm a.channel == "" || (strip a.chat_id == "" || strip a.user_id == "")) made)
      (parse_route_key-route_key_of (norm a.channel) (strip a.chat_id) (strip a.user_id) hc ht)
