-- ===== src/Execution/Bybit/Values.antt =====
-- What Python does with a value of an answer: attributes, indices, truth and comparisons. An access
-- that Python refuses is an error.
use Prim.Native.String.{◌++◌}
use one_year_billion.Common.{
  ℕ, Bool, true, false, ◌||◌, ◌&&◌, String, take, ◌≟◌, ◌==◌, decimal, Result, if◌then◌else◌,
}
use one_year_billion.Common.Int.{pos}
use one_year_billion.Common.Json.{Json, Items, Fields, truthy_json, get_or}
use one_year_billion.Execution.Bybit.Error.{Failure}

abbrev pub type_of : Json → String
type_of Json.null = "NoneType"
type_of (Json.bool _) = "bool"
type_of (Json.int _) = "int"
type_of (Json.float _) = "float"
type_of (Json.str _) = "str"
type_of (Json.array _) = "list"
type_of (Json.object _) = "dict"

-- `value or {}`
abbrev pub or_empty : Json → Json
or_empty v = if truthy_json v then v else Json.object Fields.no_fields

-- `value.get(k, default)`
unfoldable pub attr_get : String → Json → Json → Result Failure Json
attr_get k default (Json.object fs) = Result.ok (get_or k default fs)
attr_get k default v =
    Result.raised
      (Failure.other "AttributeError" ("'" ++ type_of v ++ "' object has no attribute 'get'"))

-- `value[0]`
unfoldable pub first_of : Json → Result Failure Json
first_of (Json.array (Items.item v _)) = Result.ok v
first_of (Json.array Items.end) =
    Result.raised (Failure.other "IndexError" "list index out of range")
first_of (Json.str s) =
    if s ≟ ""
    then Result.raised (Failure.other "IndexError" "string index out of range")
    else Result.ok (Json.str (take 1 s))
first_of (Json.object _) = Result.raised (Failure.other "KeyError" "0")
first_of v =
    Result.raised (Failure.other "TypeError" ("'" ++ type_of v ++ "' object is not subscriptable"))

-- `value or other`
abbrev pub or_else : Json → Json → Json
or_else v w = if truthy_json v then v else w

-- `value == n` for a number `n`
unfoldable pub equals_number : ℕ → Json → Bool
unfolding decimal
equals_number n (Json.int (pos m)) = m == n
equals_number n (Json.bool true) = n == 1
equals_number n (Json.bool false) = n == 0
equals_number n (Json.float r) = r ≟ decimal n ++ ".0" || (r ≟ "-0.0" && n == 0)
equals_number n _ = false
