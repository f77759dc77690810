-- ===== src/Ai/Json.antt =====
-- The values of JavaScript that the AI module reads: numbers as doubles, and parsed JSON.
use backend_softlogic.Base.{
  ℕ, suc, ◌/◌, ◌^◌, ◌≡◌, String, Bool, true, false, ◌==◌, if◌then◌else◌, arith,
}
use backend_softlogic.Base.Int.{ℤ, pos, negsuc}

-- `finite m s` is m / 2 ^ s, so that every finite double is one of these.
pub data Number : Type 0 where
  nan : Number
  infinity minus_infinity : Number
  finite : ℤ → ℕ → Number

abbrev pub of_ℕ : ℕ → Number
of_ℕ n = Number.finite (pos n) 0

-- `Number.isFinite(value) && value > 0 ? Math.trunc(value) : 0`
unfoldable pub finite_non_negative_int : Number → ℕ
finite_non_negative_int (Number.finite (pos n) s) = n / 2 ^ s
finite_non_negative_int (Number.finite (negsuc n) s) = 0
finite_non_negative_int Number.nan = 0
finite_non_negative_int Number.infinity = 0
finite_non_negative_int Number.minus_infinity = 0

pub finite_non_negative_int-of_ℕ : (n : ℕ) → finite_non_negative_int (of_ℕ n) ≡ n
unfolding finite_non_negative_int
finite_non_negative_int-of_ℕ n = omega arith

mutual
  pub data Json : Type 0 where
    undefined null : Json
    bool : Bool → Json
    num : Number → Json
    str : String → Json
    arr : Items → Json
    obj : Fields → Json

  pub data Items : Type 0 where
    nil : Items
    cons : Json → Items → Items

  pub data Fields : Type 0 where
    end : Fields
    entry : String → Json → Fields → Fields

abbrev pub lookup_field : String → Fields → Json
lookup_field k Fields.end = Json.undefined
lookup_field k (Fields.entry j v fs) = if j == k then v else lookup_field k fs

-- `value?.key`
abbrev pub field : String → Json → Json
field k (Json.obj fs) = lookup_field k fs
field k _ = Json.undefined

-- `a ?? b`
abbrev pub nullish : Json → Json → Json
nullish Json.undefined b = b
nullish Json.null b = b
nullish a b = a

-- `Number(value)`. What it makes of a text, an array or an object is a parameter.
abbrev pub to_number : (Json → Number) → Json → Number
to_number coerce Json.undefined = Number.nan
to_number coerce Json.null = of_ℕ 0
to_number coerce (Json.bool true) = of_ℕ 1
to_number coerce (Json.bool false) = of_ℕ 0
to_number coerce (Json.num n) = n
to_number coerce v = coerce v

abbrev pub length_items : Items → ℕ
length_items Items.nil = 0
length_items (Items.cons v vs) = suc (length_items vs)
