-- ===== src/Config/Purge.antt =====
-- `parse_purge_after` of src/config.hpp: a retention period such as "7d" into a Postgres interval.
pub mod Duration
use Prim.Native.Char.{Char, code}
use Prim.Native.String.{◌++◌, len}
use pgquarry.Base.{
  String, Bool, not, ◌&&◌, ◌||◌, Option, none, some, str_eq, ltb, leb, ◌==◌, if◌then◌else◌,
}
use pgquarry.Base.Text.{unsnoc, all}

-- `std::isdigit`.
pub is_digit : Char → Bool
is_digit c = leb b'0' (code c) && leb (code c) b'9'

-- The `switch` on the unit.
pub unit_name : Char → Option String
unit_name c =
    if code c == b's'
    then some "seconds"
    else if code c == b'm'
    then some "minutes"
    else if code c == b'h'
    then some "hours"
    else if code c == b'd'
    then some "days"
    else none

-- `digits + " " + unit_name`, or `nullopt` where the switch has returned.
pub interval : String → Option String → Option String
interval digits none = none
interval digits (some name) = some (digits ++ (" " ++ name))

-- What follows the test of the size: `raw.back()` and `raw.substr(0, raw.size() - 1)`.
pub split_unit : Option (String × Char) → Option String
unfolding interval unit_name is_digit
split_unit none = none
split_unit (some (digits, unit)) =
    if str_eq digits "" || not (all is_digit digits) then none else interval digits (unit_name unit)

unfoldable pub parse_purge_after : String → Option String
unfolding split_unit
parse_purge_after raw =
    if str_eq raw "" || str_eq raw "0"
    then some "0 seconds"
    else if ltb (len raw) 2
    then none
    else split_unit (unsnoc raw)
