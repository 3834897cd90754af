-- ===== src/Quorum/Hashing.antt =====
-- packages/core/src/sessions/QuorumSessionManager.ts, `computePayloadHash`. The SHA-256 of Node's
-- `crypto` and the compact JSON printer are parameters; the key filter that `JSON.stringify`
-- applies for an array of keys is written out.
use Prim.Native.Char.{code}
use Prim.Native.String.{String, slice, ◌++◌}
use zk_payroll_sdk.Prelude.{
  ℕ, zero, suc, ◌+◌, ◌-◌, ◌*◌, ◌/◌, ◌%◌, ◌^◌, Bool, true, false, Option, none, some, List, [], ◌∷◌,
  ltb, if◌then◌else◌, default,
}
use zk_payroll_sdk.Prelude.Text.{str_eq}
use Prim.Native.Nat.{compare, Ordering}

-- A JSON value. A number is the text that is printed for it; an object lists its own keys in
-- `Object.keys` order.
mutual
  pub data Json : Type 0 where
    null : Json
    boolean : Bool → Json
    number text : String → Json
    array : Items → Json
    object : Fields → Json

  pub data Items : Type 0 where
    nil : Items
    cons : Json → Items → Items

  pub data Fields : Type 0 where
    end : Fields
    field : String → Json → Fields → Fields

-- What the platform gives: `createHash("sha256")…digest("hex")`, where `none` is a throw, and
-- `JSON.stringify` of a value with no replacer.
pub record Platform : Type 0 where
  pub sha256 : String → Option String
  pub stringify : Json → String

-- `string | Record<string, unknown>`
pub data Payload : Type 0 where
  raw : String → Payload
  structured : Fields → Payload

-- The UTF-16 code units of a string, as `charCodeAt` reads them.
unfoldable pub code_units : String → List ℕ
code_units String.[] = []
code_units (String.◌∷◌ c s) =
    if ltb (code c) 0x10000
    then code c ∷ code_units s
    else (0xd800 + (code c - 0x10000) / 0x400)
      ∷ (0xdc00 + (code c - 0x10000) % 0x400)
      ∷ code_units s

-- The default order of `Array.prototype.sort`.
units_le : List ℕ → List ℕ → Bool
units_le [] ys = true
units_le (x ∷ xs) [] = false
units_le (x ∷ xs) (y ∷ ys) = elim (compare x y) [
  | Ordering.lt ↦ true
  | Ordering.eq ↦ units_le xs ys
  | Ordering.gt ↦ false
]

insert_key : String → List String → List String
unfolding units_le code_units
insert_key k [] = k ∷ []
insert_key k (j ∷ js) =
    if units_le (code_units k) (code_units j) then k ∷ j ∷ js else j ∷ insert_key k js

unfoldable pub sort_keys : List String → List String
unfolding insert_key
sort_keys [] = []
sort_keys (k ∷ ks) = insert_key k (sort_keys ks)

unfoldable pub keys : Fields → List String
keys end = []
keys (field k v fs) = k ∷ keys fs

abbrev pub get_field : String → Fields → Option Json
get_field k end = none
get_field k (field j v fs) = if str_eq j k then some v else get_field k fs

abbrev add_field : String → Option Json → Fields → Fields
add_field k none fs = fs
add_field k (some v) fs = field k v fs

-- The properties of an object that a list of keys lets through, in the list's order.
unfoldable pub pick : List String → Fields → Fields
pick [] fs = end
pick (k ∷ ks) fs = add_field k (get_field k fs) (pick ks fs)

-- What `JSON.stringify(v, allowed)` prints: the same list filters the objects at every depth.
unfoldable mutual
  unfolding pick

  pub project : List String → Json → Json
  project allowed null = null
  project allowed (boolean b) = boolean b
  project allowed (number n) = number n
  project allowed (text s) = text s
  project allowed (array xs) = array (project_items allowed xs)
  project allowed (object fs) = object (pick allowed (project_fields allowed fs))

  pub project_items : List String → Items → Items
  project_items allowed nil = nil
  project_items allowed (cons x xs) = cons (project allowed x) (project_items allowed xs)

  pub project_fields : List String → Fields → Fields
  project_fields allowed end = end
  project_fields allowed (field k v fs) = field k (project allowed v) (project_fields allowed fs)

-- `hash = (hash << 5) - hash + char; hash |= 0`, on the 32-bit pattern of `hash`.
fallback_loop : ℕ → List ℕ → ℕ
fallback_loop h [] = h
fallback_loop h (c ∷ cs) = fallback_loop ((h * 32 + 2 ^ 32 - h + c) % 2 ^ 32) cs

-- `Math.abs` of the number that a 32-bit pattern stands for.
abbrev abs_int32 : ℕ → ℕ
abs_int32 h = if ltb h (2 ^ 31) then h else 2 ^ 32 - h

hex_digits : ℕ → ℕ → String
hex_digits zero n = ""
hex_digits (suc k) n = hex_digits k (n / 16) ++ slice "0123456789abcdef" (n % 16) (n % 16 + 1)

-- A 32-bit number has at most eight hexadecimal digits, so `padStart(8, "0")` gives eight.
fallback_hash : String → String
unfolding fallback_loop code_units hex_digits
fallback_hash s = hex_digits 8 (abs_int32 (fallback_loop 0 (code_units s)))

unfoldable pub canonical_string : Platform → Payload → String
unfolding keys sort_keys project
canonical_string p (raw s) = s
canonical_string p (structured fs) = p.stringify (project (sort_keys (keys fs)) (object fs))

unfoldable pub compute_payload_hash : Platform → Payload → String
unfolding canonical_string fallback_hash
compute_payload_hash p payload =
    default (p.sha256 (canonical_string p payload)) (fallback_hash (canonical_string p payload))

-- `typeof payload === "string" ? payload : JSON.stringify(payload)`
abbrev pub raw_payload : Platform → Payload → String
raw_payload p (raw s) = s
raw_payload p (structured fs) = p.stringify (object fs)
