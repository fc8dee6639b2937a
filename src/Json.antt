-- ===== src/Json.antt =====
-- JSON values, and what the program uses of Python's module `json`.
use alicerce.Prelude.{
  ◌≡◌, Bool, true, ◌&&◌, ℤ, ℕ_discrete, Option, some, List, [], ◌∷◌, Eq, ◌==◌, elem, all, Text,
  Bytes, is_canonical, list_order, nat_lt_order, nat_eq, list_eq, if◌then◌else◌,
}
use alicerce.Errors.{Result, ok, err, key_error}

-- A value as `json.loads` reads it before its hooks: an object is its members in the order of the
-- text. `number` is a number with a fraction or an exponent, by its `repr`; `constant` is NaN or an
-- infinity.
mutual
  pub data Json : Type 0 where
    null_value : Json
    boolean : Bool → Json
    integer : ℤ → Json
    number : Text → Json
    constant : Text → Json
    string : Text → Json
    array : Items → Json
    object : Members → Json

  pub data Items : Type 0 where
    no_items : Items
    item : Json → Items → Items

  pub data Members : Type 0 where
    no_members : Members
    member : Text → Json → Members → Members

unfoldable pub Json-discrete : Discrete Json
unfolding ℕ_discrete
Json-discrete = hlevel ℕ_discrete

instance abbrev pub json_eq : Eq Json
json_eq = record { dec = Json-discrete }

abbrev pub keys : Members → List Text
keys no_members = []
keys (member key _ rest) = key ∷ keys rest

-- `value[key]`
abbrev pub get : Text → Members → Result Json
get key no_members = err key_error
get key (member name value rest) = if name == key then ok value else get key rest

-- `set(value) == set(names)`
unfoldable pub has_keys : List Text → Members → Bool
has_keys names value =
    all (λ key. elem key names) (keys value) && all (λ name. elem name (keys value)) names

-- The keys of every object stand in strictly ascending order.
unfoldable mutual
  pub is_sorted : Json → Bool
  is_sorted (array items) = are_sorted items
  is_sorted (object members) = is_canonical (keys members) && members_sorted members
  is_sorted _ = true

  pub are_sorted : Items → Bool
  are_sorted no_items = true
  are_sorted (item value rest) = is_sorted value && are_sorted rest

  pub members_sorted : Members → Bool
  members_sorted no_members = true
  members_sorted (member _ value rest) = is_sorted value && members_sorted rest

-- `json.dumps(value, ensure_ascii=False, allow_nan=False, sort_keys=True, separators=(",", ":"))` in
-- UTF-8, none where one of the two raises a TypeError or a ValueError; and `json.loads` of bytes in
-- UTF-8 before its hooks, which raises `decode_error` for what is not UTF-8 or not JSON. A value
-- whose keys are sorted is read back as it was written.
pub record JsonText : Type 0 where
  pub dumps : Json → Option Bytes
  pub loads : Bytes → Result Json
  pub loads-dumps :
      (value : Json) (bytes : Bytes)
      → is_sorted value ≡ true
      → dumps value ≡ some bytes
      → loads bytes ≡ ok value
