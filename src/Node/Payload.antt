-- ===== src/Node/Payload.antt =====
-- The values of a task's payload and result in zen_claw/node/service.py: a flat JSON object. Nested
-- lists and objects, and floats, are not modelled.
use zen_claw.Base.{
  ℕ, zero, suc, ◌/◌, ◌%◌, String, Bool, true, false, ◌&&◌, Option, none, some, ◌==◌, eqb, length,
  all, if◌then◌else◌,
}
use zen_claw.Base.Dict.{Dict, get}
use Prim.Native.String.{◌++◌}

pub data Value : Type 0 where
  null : Value
  flag : Bool → Value
  number : ℕ → Value
  text : String → Value

abbrev pub Payload : Type 0
Payload = Dict Value

abbrev digit : ℕ → String
digit n =
    if eqb n 0
    then "0"
    else if eqb n 1
    then "1"
    else if eqb n 2
    then "2"
    else if eqb n 3
    then "3"
    else if eqb n 4
    then "4"
    else if eqb n 5
    then "5"
    else if eqb n 6
    then "6"
    else if eqb n 7
    then "7"
    else if eqb n 8
    then "8"
    else "9"

unfoldable pub decimal : ℕ → ℕ → String
decimal zero n = ""
decimal (suc f) n =
    let front = decimal f (n / 10) in if eqb (n / 10) 0 then digit n else front ++ digit (n % 10)

-- `str(v)`
unfoldable pub str : Value → String
unfolding decimal
str null = "None"
str (flag true) = "True"
str (flag false) = "False"
str (number n) = decimal (suc n) n
str (text s) = s

-- the truth of a value
unfoldable pub truthy : Option Value → Bool
truthy none = false
truthy (some null) = false
truthy (some (flag b)) = b
truthy (some (number n)) = if eqb n 0 then false else true
truthy (some (text s)) = if s == "" then false else true

-- `str(v or "")`
unfoldable pub str_or_empty : Option Value → String
unfolding str truthy
str_or_empty none = ""
str_or_empty (some v) = if truthy (some v) then str v else ""

abbrev as_number : Bool → ℕ
as_number true = 1
as_number false = 0

-- `v == w`; a Boolean is the number 0 or 1
unfoldable pub value_eq : Value → Value → Bool
value_eq null null = true
value_eq (flag a) (flag b) = eqb (as_number a) (as_number b)
value_eq (flag a) (number n) = eqb (as_number a) n
value_eq (number n) (flag b) = eqb n (as_number b)
value_eq (number m) (number n) = eqb m n
value_eq (text s) (text t) = s == t
value_eq _ _ = false

abbrev has_value : Payload → String × Value → Bool
has_value q (k, v) = elim (get q k) [ none ↦ false | some w ↦ value_eq v w ]

-- `p == q` of two dictionaries
unfoldable pub payload_eq : Payload → Payload → Bool
unfolding all value_eq
payload_eq p q = eqb (length p) (length q) && all (has_value q) p
