-- ===== src/Routing/Keys.antt =====
-- The keys of zen_claw/channels/routing.py.
use zen_claw.Base.{String, ◌≡◌, false, none, some, ◌==◌, arith, ap, sym, ◌∙◌, if◌then◌else◌}
use zen_claw.Base.Text.{norm, strip}
use zen_claw.Routing.Store.{make_route_key, route_key_of}
use Prim.Native.String.{◌++◌}
use text.Mathlib.TextLemmas.{append_assoc}

-- A part of an address that stays as it is: no white space around it, and not empty.
pub record IsClean (s : String) : Type 0 where
  pub strip_same : strip s ≡ s
  pub solid : (s == "") ≡ false

make_route_key-clean :
    (channel chat user : String)
    → IsClean chat
    → IsClean user
    → make_route_key (record { channel = channel; chat_id = chat; user_id = user })
      ≡ (if norm channel == "" then none else some (route_key_of (norm channel) chat user))
unfolding make_route_key
make_route_key-clean channel chat user c u =
    rw (c.strip_same, u.strip_same) (ground (arith, c.solid, u.solid))

-- The key of an address does not tell its parts apart if a chat or a user has a colon in its name:
-- the user `b:c` of the chat `a` and the user `c` of the chat `a:b` have the same key, and so the
-- same binding.
pub make_route_key_colon :
    (channel a b c : String)
    → IsClean a
    → IsClean (b ++ (":" ++ c))
    → IsClean (a ++ (":" ++ b))
    → IsClean c
    → make_route_key (record { channel = channel; chat_id = a; user_id = b ++ (":" ++ c) })
      ≡ make_route_key (record { channel = channel; chat_id = a ++ (":" ++ b); user_id = c })
make_route_key_colon channel a b c ha hbc hab hc =
    rw
      (
        make_route_key-clean channel a (b ++ (":" ++ c)) ha hbc,
        make_route_key-clean channel (a ++ (":" ++ b)) c hab hc,
      )
      (unfold route_key_of in
        ap (λ k. if norm channel == "" then none else some (norm channel ++ (":" ++ k)))
          (ap (λ k. a ++ k) (sym (append_assoc ":" b (":" ++ c)))
            ∙ sym (append_assoc a (":" ++ b) (":" ++ c))))
