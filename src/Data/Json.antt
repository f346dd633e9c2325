-- ===== src/Data/Json.antt =====
-- JSON values as JavaScript holds them. `N` stands for its numbers, which are not modelled: what the
-- program needs of them is a `Host`. `undefined` is `none` of `Option (Json N)`.
use bpm_new.Common.{
  ℕ, zero, suc, ◌+◌, ◌*◌, ◌-◌, Bool, true, false, ◌&&◌, Option, none, some, [], ◌∷◌, Str, codes,
  ◌==◌, str_eq, if◌then◌else◌,
}
use bpm_new.Data.Chars.{is_digit, all, is_empty}

mutual
  pub data Json (N : Type 0) : Type 0 where
    null : Json N
    bool : Bool → Json N
    num : N → Json N
    str : Str → Json N
    arr : Items N → Json N
    obj : Fields N → Json N

  pub data Items (N : Type 0) : Type 0 where
    nil : Items N
    cons : Json N → Items N → Items N

  -- The own properties, in the order of `Object.entries`.
  pub data Fields (N : Type 0) : Type 0 where
    end : Fields N
    field : Str → Json N → Fields N → Fields N

-- What the language adds to the program's own values: its numbers, and the properties that plain
-- objects and arrays inherit from their prototypes.
pub record Host (N : Type 0) : Type 0 where
  pub of_ℕ : ℕ → N
  pub inherited_by_object : Str → Option (Json N)
  pub inherited_by_array : Str → Option (Json N)

module _ {N : Type 0} where
  unfoldable pub get_field : Str → Fields N → Option (Json N)
  get_field k end = none
  get_field k (field j v fs) = if str_eq j k then some v else get_field k fs

  -- `o[k] = v`
  unfoldable pub set_field : Str → Json N → Fields N → Fields N
  set_field k v end = field k v end
  set_field k v (field j w fs) = if str_eq j k then field j v fs else field j w (set_field k v fs)

  abbrev pub size : Items N → ℕ
  size nil = 0
  size (cons _ xs) = suc (size xs)

  abbrev pub nth : ℕ → Items N → Option (Json N)
  nth i nil = none
  nth zero (cons x xs) = some x
  nth (suc i) (cons x xs) = nth i xs

abbrev pub decimal : ℕ → Str → ℕ
decimal acc [] = acc
decimal acc (c ∷ s) = decimal (acc * 10 + (c - b'0')) s

-- A property name that is an array index: a decimal numeral with no leading zero.
unfoldable pub array_index : Str → Option ℕ
array_index [] = none
array_index (c ∷ s) =
    if is_digit c && all is_digit s && (if c == b'0' then is_empty s else true)
    then some (decimal 0 (c ∷ s))
    else none

abbrev pub or_else {ℓ} : {A : Type ℓ} → Option A → Option A → Option A
or_else none b = b
or_else (some a) b = some a

module _ {N : Type 0} where
  abbrev pub item_or : Option ℕ → Items N → Option (Json N) → Option (Json N)
  item_or none xs d = d
  item_or (some i) xs d = nth i xs

module _ {N : Type 0} (host : Host N) where
  -- `value[key]`, where `typeof value` is "object" and `value` is not null; otherwise `none`.
  unfoldable pub property : Json N → Str → Option (Json N)
  unfolding get_field array_index
  property (obj fs) k = or_else (get_field k fs) (host.inherited_by_object k)
  property (arr xs) k =
      if str_eq k (codes "length")
      then some (num (host.of_ℕ (size xs)))
      else item_or (array_index k) xs (host.inherited_by_array k)
  property _ k = none

module _ {N : Type 0} where
  -- `value && typeof value === "object"`
  abbrev pub is_object : Json N → Bool
  is_object (obj _) = true
  is_object (arr _) = true
  is_object _ = false
