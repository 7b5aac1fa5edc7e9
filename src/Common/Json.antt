-- ===== src/Common/Json.antt =====
-- The values that `json.loads` returns and that the program hands on as `dict[str, Any]`. A number
-- with a point is held by its `repr`.
use Prim.Native.Nat.{zero}
use Prim.Native.String.{String}
use mathlib.Core.Path.{◌≡◌, refl}
use mathlib.Core.Bool.{Bool, true, false, not, ◌&&◌}
use mathlib.Core.List.{List, [], ◌∷◌}
use native.Mathlib.Omega.{arith}
use text.Mathlib.TextEquality.{eq_iff}
use one_year_billion.Common.Base.{if◌then◌else◌}
use one_year_billion.Common.Int.{ℤ, pos}
use one_year_billion.Common.Text.{◌≟◌, truthy}

mutual
  pub data Json : Type 0 where
    null : Json
    bool : Bool → Json
    int : ℤ → Json
    float : String → Json
    str : String → Json
    array : Items → Json
    object : Fields → Json

  pub data Items : Type 0 where
    end : Items
    item : Json → Items → Items

  pub data Fields : Type 0 where
    no_fields : Fields
    field : String → Json → Fields → Fields

-- `bool(value)`
unfoldable pub truthy_json : Json → Bool
truthy_json null = false
truthy_json (bool b) = b
truthy_json (int (pos zero)) = false
truthy_json (int _) = true
truthy_json (float r) = not (r ≟ "0.0") && not (r ≟ "-0.0")
truthy_json (str s) = truthy s
truthy_json (array end) = false
truthy_json (array (item _ _)) = true
truthy_json (object no_fields) = false
truthy_json (object (field _ _ _)) = true

abbrev pub is_null : Json → Bool
is_null null = true
is_null _ = false

-- `value == s` for a text `s`
abbrev pub is_text : String → Json → Bool
is_text s (str t) = t ≟ s
is_text s _ = false

-- a list of values
unfoldable pub items_of : List Json → Items
items_of [] = end
items_of (v ∷ vs) = item v (items_of vs)

-- `d.get(k, default)`
unfoldable pub get_or : String → Json → Fields → Json
get_or k default no_fields = default
get_or k default (field j v fs) = if j ≟ k then v else get_or k default fs

-- `d.get(k)`
abbrev pub get_json : String → Fields → Json
get_json k fs = get_or k null fs

-- `d[k] = v`
unfoldable pub put_json : String → Json → Fields → Fields
put_json k v no_fields = field k v no_fields
put_json k v (field j w fs) = if j ≟ k then field k v fs else field j w (put_json k v fs)

pub get_or-put_json :
    (k j : String) (default v : Json) (fs : Fields)
    → get_or j default (put_json k v fs) ≡ (if k ≟ j then v else get_or j default fs)
unfolding get_or put_json
get_or-put_json k j default v no_fields = refl
get_or-put_json k j default v (field i w fs) =
    ground (arith, eq_iff k j, eq_iff i k, eq_iff i j, get_or-put_json k j default v fs)
