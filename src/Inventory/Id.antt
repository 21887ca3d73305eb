-- ===== src/Inventory/Id.antt =====
-- internal/inventory/ref.go, ParseID: the identifier of an object, read back.
use stageset_controller.Prelude.{
  ℕ, String, str_eq, ◌≡◌, refl, ap, ◌∙◌, Bool, true, false, not, ◌&&◌, List, [], ◌∷◌, arith, ◌==◌,
  if◌then◌else◌, length, Result, ok, err,
}
use Prim.Native.String.{◌++◌ as str_append}
use Prim.Native.Char.{Char, code, char}
use text.Mathlib.TextLemmas.{nil-append, cons-append}
use stageset_controller.Inventory.{ObjectRef, ref_id}

abbrev onto_first : Char → List String → List String
onto_first c [] = String.◌∷◌ c "" ∷ []
onto_first c (p ∷ ps) = String.◌∷◌ c p ∷ ps

-- `strings.Split` at an underscore.
unfoldable pub split_id : String → List String
split_id String.[] = "" ∷ []
split_id (String.◌∷◌ c s) =
    let rest = split_id s in if code c == b'_' then "" ∷ rest else onto_first c rest

pub data IdError : Type 0 where
  malformed_parts : ℕ → IdError
  empty_name empty_kind : IdError

unfoldable pub of_parts : List String → String → Result IdError ObjectRef
of_parts (namespace ∷ name ∷ group ∷ kind ∷ []) version =
    if str_eq name ""
    then err empty_name
    else if str_eq kind ""
    then err empty_kind
    else ok (record {
      group = group;
      kind = kind;
      namespace = namespace;
      name = name;
      version = version;
    })
of_parts parts version = err (malformed_parts (length parts))

unfoldable pub parse_id : String → String → Result IdError ObjectRef
parse_id i version = of_parts (split_id i) version

-- A text without an underscore.
abbrev pub plain : String → Bool
plain String.[] = true
plain (String.◌∷◌ c s) = not (code c == b'_') && plain s

abbrev pub Plain : String → Type 0
Plain s = plain s ≡ true

Plain-tail : (c : Char) (s : String) → Plain (String.◌∷◌ c s) → ((code c == b'_') ≡ false) × Plain s
Plain-tail c s h = ground (arith, h)

split_id-Plain : (s : String) → Plain s → split_id s ≡ s ∷ []
unfolding split_id
split_id-Plain String.[] h = refl
split_id-Plain (String.◌∷◌ c s) k = let (n, h) = Plain-tail c s k in rw (n, split_id-Plain s h) refl

underscore-append : (s : String) → split_id (str_append "_" s) ≡ "" ∷ split_id s
unfolding split_id
underscore-append s =
    ap split_id
      (cons-append (char b'_' tt) "" s ∙ ap (λ t. String.◌∷◌ (char b'_' tt) t) (nil-append s))

split_id-append :
    (p s : String) → Plain p → split_id (str_append p (str_append "_" s)) ≡ p ∷ split_id s
unfolding split_id
split_id-append String.[] s h = rw (nil-append (str_append "_" s)) (underscore-append s)
split_id-append (String.◌∷◌ c p) s k =
    let (n, h) = Plain-tail c p k in
    rw (cons-append c p (str_append "_" s), n, split_id-append p s h) refl

-- The identifier of an object whose name and kind are not empty and whose parts have no underscore, read back with
-- its version, is the object.
pub parse_id-ref_id :
    (r : ObjectRef)
    → Plain r.namespace
    → Plain r.name
    → Plain r.group
    → Plain r.kind
    → str_eq r.name "" ≡ false
    → str_eq r.kind "" ≡ false
    → parse_id (ref_id r) r.version ≡ ok r
unfolding parse_id ref_id of_parts
parse_id-ref_id r a b c d e f =
    let tail = str_append "_" (str_append r.group (str_append "_" r.kind)) in
    rw
      (
        split_id-append r.namespace (str_append r.name tail) a,
        split_id-append r.name (str_append r.group (str_append "_" r.kind)) b,
        split_id-append r.group r.kind c,
        split_id-Plain r.kind d,
        e,
        f,
      )
      refl
