-- ===== src/Js/Objects.antt =====
-- Values of type `unknown`. A field list holds the enumerable own properties in order.
-- Numbers are of a type that the host gives.
use Prim.Native.Nat.{ℕ, suc}
use Prim.Native.String.{String}
use ctrl_alt_ship.Prelude.{
  Bool, false, Option, none, some, List, [], ◌∷◌, all, ◌||◌, ◌==◌, includes, if◌then◌else◌,
}

-- What `Object.getPrototypeOf` returns, as far as the program tells the cases apart.
pub data Prototype : Type 0 where
  object_prototype null_prototype other_prototype : Prototype

mutual
  pub data Value (Num : Type 0) : Type 0 where
    undefined : Value Num
    null : Value Num
    bool : Bool → Value Num
    num : Num → Value Num
    str : String → Value Num
    arr : Items Num → Value Num
    obj : Prototype → Fields Num → Value Num
    -- functions, symbols and big integers
    opaque : Value Num

  pub data Items (Num : Type 0) : Type 0 where
    nil : Items Num
    cons : Value Num → Items Num → Items Num

  pub data Fields (Num : Type 0) : Type 0 where
    end : Fields Num
    field : String → Value Num → Fields Num → Fields Num

-- The host's numbers (IEEE doubles) and dates.
pub record Runtime : Type 1 where
  pub Num : Type 0
  pub is_finite : Num → Bool
  pub is_integer : Num → Bool
  pub lt : Num → Num → Bool
  pub eq : Num → Num → Bool
  -- the number of `n` thousandths nearest to it
  pub thousandths : ℕ → Num
  -- `Number(x.toFixed(d))`
  pub to_fixed : ℕ → Num → Num
  -- `Date.parse`, which is NaN for what it does not read
  pub parse_date : String → Num
  -- `new Date(s).toISOString()`, where `none` is the RangeError of an invalid date
  pub iso_date : String → Option String

module _ {Num : Type 0} where
  abbrev pub items : Items Num → List (Value Num)
  items nil = []
  items (cons v vs) = v ∷ items vs

  abbrev pub entries : Fields Num → List (String × Value Num)
  entries end = []
  entries (field k v fs) = (k, v) ∷ entries fs

  -- `Object.keys`
  abbrev pub keys : Fields Num → List String
  keys end = []
  keys (field k v fs) = k ∷ keys fs

  abbrev pub key_count : Fields Num → ℕ
  key_count end = 0
  key_count (field k v fs) = suc (key_count fs)

  -- `object.key`, and `undefined` if it is not there
  unfoldable pub get : Fields Num → String → Value Num
  get end k = undefined
  get (field j v fs) k = if j == k then v else get fs k

  -- `key in object`
  unfoldable pub has : Fields Num → String → Bool
  has end k = false
  has (field j v fs) k = j == k || has fs k

  -- `!Object.keys(object).some((key) => !allowed.includes(key))`
  unfoldable pub only_keys : List String → Fields Num → Bool
  only_keys allowed fs = all (includes allowed) (keys fs)

  -- The test of `assertObject`: the fields of a plain object.
  abbrev pub plain_object : Value Num → Option (Fields Num)
  plain_object (obj object_prototype fs) = some fs
  plain_object (obj null_prototype fs) = some fs
  plain_object v = none
