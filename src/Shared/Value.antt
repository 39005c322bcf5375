-- ===== src/Shared/Value.antt =====
-- The values that `json.loads` returns, as far as the services look at them. A list or an object
-- is `other`, since no service looks inside one. Of a float the model keeps the integer that it
-- equals, if any: the services test the type of a number and compare it with an integer.
use mathlib.Core.Path.{◌≡◌}
use mathlib.Core.Bool.{Bool, true, false}
use mathlib.Core.Option.{Option, none, some}
use native.Mathlib.Omega.{arith}
use Prim.Native.String.{String}
use text.Mathlib.TextEquality.{eq_iff}
use agent_economy.Shared.Tests.{text_eq, ◌==◌, if◌then◌else◌}
use agent_economy.Shared.Int.{ℤ, pos, eqb_ℤ}
use agent_economy.Shared.Dict.{Dict}

pub data Value : Type 0 where
  null : Value
  bool : Bool → Value
  int : ℤ → Value
  float : Option ℤ → Value
  str : String → Value
  other : Value

-- A JSON object.
abbrev pub Object : Type 0
Object = Dict String Value

-- `value == text`
abbrev pub equals_text : Value → String → Bool
equals_text (str s) t = s == t
equals_text null t = false
equals_text (bool b) t = false
equals_text (int z) t = false
equals_text (float w) t = false
equals_text other t = false

-- `isinstance(value, str)`
abbrev pub as_text : Value → Option String
as_text (str s) = some s
as_text null = none
as_text (bool b) = none
as_text (int z) = none
as_text (float w) = none
as_text other = none

-- `value == number`: a Boolean is the integer 0 or 1, and a float may equal an integer.
abbrev pub equals_int : Value → ℤ → Bool
equals_int (int z) n = eqb_ℤ z n
equals_int (bool b) n = eqb_ℤ (if b then pos 1 else pos 0) n
equals_int (float none) n = false
equals_int (float (some w)) n = eqb_ℤ w n
equals_int (str s) n = false
equals_int null n = false
equals_int other n = false

-- `isinstance(value, int) and not isinstance(value, bool)`
abbrev pub as_int : Value → Option ℤ
as_int (int z) = some z
as_int null = none
as_int (bool b) = none
as_int (float w) = none
as_int (str s) = none
as_int other = none

pub equals_text_as_text : (v : Value) (t : String) → equals_text v t ≡ true → v ≡ str t
equals_text_as_text (str s) t h = ground (arith, eq_iff s t)
equals_text_as_text null t h = cc
equals_text_as_text (bool b) t h = cc
equals_text_as_text (int z) t h = cc
equals_text_as_text (float w) t h = cc
equals_text_as_text other t h = cc
