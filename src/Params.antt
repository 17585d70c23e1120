-- ===== src/Params.antt =====
-- Parameter hashes of Ruby: string keys, and values that are nil, strings, arrays or hashes. A hash
-- keeps the order in which its keys were first written, and holds each key once.
pub mod Laws
pub mod Perms
pub mod Appended
pub mod Mapped
pub mod Stored
use oauth.Prelude.{
  Bool, true, false, List, [], ◌∷◌, Option, none, some, Bytes, bytes_eq, if◌then◌else◌, map, not,
  All, ◌≢◌, ◌||◌,
}

mutual
  pub data Value : Type 0 where
    null : Value
    str : Bytes → Value
    arr : Items → Value
    obj : Fields → Value

  pub data Items : Type 0 where
    no_items : Items
    item : Value → Items → Items

  pub data Fields : Type 0 where
    no_fields : Fields
    field : Bytes → Value → Fields → Fields

abbrev pub Params {ℓ} : Type ℓ → Type ℓ
Params V = List (Bytes × V)

-- `include?` of an array of strings.
unfoldable pub includes : List Bytes → Bytes → Bool
includes [] key = false
includes (x ∷ xs) key = bytes_eq x key || includes xs key

module _ {ℓ} {V : Type ℓ} where
  -- `hash[key]`
  unfoldable pub lookup : Bytes → Params V → Option V
  lookup key [] = none
  lookup key ((k, v) ∷ rest) = if bytes_eq k key then some v else lookup key rest

  -- `hash[key] = value`
  unfoldable pub store : Bytes → V → Params V → Params V
  store key value [] = (key, value) ∷ []
  store key value ((k, v) ∷ rest) =
      if bytes_eq k key then (k, value) ∷ rest else (k, v) ∷ store key value rest

  -- `hash.merge(other)`
  unfoldable pub merge : Params V → Params V → Params V
  unfolding store
  merge hash [] = hash
  merge hash ((k, v) ∷ other) = merge (store k v hash) other

  -- `hash.select { |k, v| … }`
  unfoldable pub select : (Bytes → V → Bool) → Params V → Params V
  select keep [] = []
  select keep ((k, v) ∷ rest) = if keep k v then (k, v) ∷ select keep rest else select keep rest

  -- `hash.delete(key)`
  unfoldable pub delete : Bytes → Params V → Params V
  unfolding select
  delete key = select (λ k v. not (bytes_eq k key))

  -- No key occurs twice, as in every Ruby hash.
  abbrev pub NodupKeys : Params V → Type 0
  NodupKeys [] = Unit
  NodupKeys ((k, v) ∷ rest) = All (λ p. p.0 ≢ k) rest × NodupKeys rest
