-- ===== src/IntentCache/Tests.antt =====
-- A small cache.
use zen_claw.Base.{◌+◌, ◌*◌, String, ◌≡◌, refl, none, some, [], ◌∷◌, List, leb, eqb, if◌then◌else◌}
use zen_claw.Base.Int.{pos, max_zero, max_one}
use zen_claw.Base.Dict.{get as dict_get, put as dict_put, remove}
use zen_claw.Base.Text.{lower, norm, strip}
use zen_claw.IntentCache.Cache.{
  IntentCache, update, init, ttl_for, collapse, normalise, evict, make_key, get, get_entry, put,
  put_entry, invalidate, clear,
}
use zen_claw.IntentCache.Reads.{get-put}
use zen_claw.IntentCache.Size.{Call, getting, putting, step, run, lookups, IsSound, run-IsSound}

abbrev digest : String → String
digest s = s

abbrev small : IntentCache
small = init (pos 2) [] (pos 300)

program : Unit {0}
unfolding dict_get dict_put remove lower norm strip max_zero max_one update init ttl_for collapse
    normalise evict make_key get get_entry put put_entry invalidate clear step run lookups
program = tt

normalise_runs : normalise "  Tokyo \t  Rain " ≡ "tokyo rain"
unfolding program
normalise_runs = refl

-- the third reply drives out the one that was used least recently
abbrev calls : List Call
calls =
    putting "weather" "a" "A" 0
    ∷ putting "weather" "b" "B" 1
    ∷ getting "weather" "a" 2
    ∷ putting "weather" "c" "C" 3
    ∷ getting "weather" "b" 4
    ∷ []

calls_evict :
    ((get digest (run digest small calls) "weather" "a" 5).1 ≡ some "A")
    × ((get digest (run digest small calls) "weather" "b" 5).1 ≡ none)
unfolding program
calls_evict = (refl, refl)

get-put_example :
    (get digest
      (put digest small "weather" "Tokyo  rain" "wet" 1000)
      "weather"
      " tokyo rain"
      1801000).1
    ≡ (if eqb (ttl_for small "weather") 0
        then none
        else if leb 1801000 (1000 + ttl_for small "weather" * 1000)
        then some "wet"
        else none)
unfolding program
get-put_example = get-put digest small "weather" "Tokyo  rain" " tokyo rain" "wet" 1000 1801000 refl

run-IsSound_example : IsSound (max_one (pos 2)) 2 (run digest (init (pos 2) [] (pos 300)) calls)
unfolding lookups
run-IsSound_example = run-IsSound digest (pos 2) (pos 300) [] calls

abbrev full : IntentCache
full = put digest (put digest small "weather" "a" "A" 0) "weather" "b" "B" 1
