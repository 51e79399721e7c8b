-- ===== src/Prelude/Text.antt =====
-- Go's `strings` functions that the gateway calls, and maps with string keys.
use Prim.Native.Char.{code}
use Prim.Native.String
use Prim.Native.String.{String}
use mathlib.Core.Path.{◌≡◌, refl}
use mathlib.Core.Logic.{◌≢◌}
use mathlib.Core.Bool.{Bool, true, false, not, ◌&&◌, ◌||◌}
use mathlib.Core.Option.{Option, none, some}
use mathlib.Core.List.{List, [], ◌∷◌, ◌++◌}
use native.Mathlib.Omega.{arith}
use text.Mathlib.Text.{◌==◌ as text_eq}
use text.Mathlib.TextEquality.{eq_iff}
use text.Mathlib.TextLemmas.{nil-append, cons-append}
use renku_gateway.Prelude.Tests.{if◌then◌else◌, ◌==◌}

abbrev pub str_eq : String → String → Bool
str_eq s t = text_eq s t

pub str_eq-false : (s t : String) → s ≢ t → str_eq s t ≡ false
str_eq-false s t h = ground (arith, eq_iff s t)

infixl 65 ◌+++◌
abbrev pub ◌+++◌ : String → String → String
s +++ t = String.◌++◌ s t

-- strings.HasPrefix(s, prefix)
unfoldable pub has_prefix : String → String → Bool
has_prefix s String.[] = true
has_prefix String.[] (String.◌∷◌ d p) = false
has_prefix (String.◌∷◌ c s) (String.◌∷◌ d p) = code c == code d && has_prefix s p

drop_chars : String → String → String
drop_chars s String.[] = s
drop_chars String.[] (String.◌∷◌ d p) = String.[]
drop_chars (String.◌∷◌ c s) (String.◌∷◌ d p) = drop_chars s p

-- strings.TrimPrefix(s, prefix)
unfoldable pub trim_prefix : String → String → String
unfolding has_prefix drop_chars
trim_prefix s p = if has_prefix s p then drop_chars s p else s

pub has_prefix-append : (p s : String) → has_prefix (p +++ s) p ≡ true
unfolding has_prefix
has_prefix-append String.[] s = refl
has_prefix-append (String.◌∷◌ c p) s = rw cons-append (ground (arith, has_prefix-append p s))

-- Of two prefixes of one text, one is a prefix of the other.
pub has_prefix_comparable :
    (s p q : String)
    → has_prefix s p ≡ true
    → has_prefix s q ≡ true
    → (has_prefix p q || has_prefix q p) ≡ true
unfolding has_prefix
has_prefix_comparable s String.[] String.[] h k = refl
has_prefix_comparable s String.[] (String.◌∷◌ d q) h k = refl
has_prefix_comparable s (String.◌∷◌ c p) String.[] h k = refl
has_prefix_comparable String.[] (String.◌∷◌ c p) (String.◌∷◌ d q) h k = cc
has_prefix_comparable (String.◌∷◌ b s) (String.◌∷◌ c p) (String.◌∷◌ d q) h k =
    ground (arith, has_prefix_comparable s p q)

pub has_prefix_trans :
    (s p q : String) → has_prefix s p ≡ true → has_prefix p q ≡ true → has_prefix s q ≡ true
unfolding has_prefix
has_prefix_trans s p String.[] h k = refl
has_prefix_trans s String.[] (String.◌∷◌ d q) h k = cc
has_prefix_trans String.[] (String.◌∷◌ c p) (String.◌∷◌ d q) h k = cc
has_prefix_trans (String.◌∷◌ b s) (String.◌∷◌ c p) (String.◌∷◌ d q) h k =
    ground (arith, has_prefix_trans s p q)

drop_chars-append : (p s : String) → drop_chars (p +++ s) p ≡ s
unfolding drop_chars
drop_chars-append String.[] s = rw nil-append
drop_chars-append (String.◌∷◌ c p) s = rw cons-append (drop_chars-append p s)

pub trim_prefix-append : (p s : String) → trim_prefix (p +++ s) p ≡ s
trim_prefix-append p s = unfold trim_prefix in rw (has_prefix-append p s) (drop_chars-append p s)

has_prefix-drop_chars :
    (s p q : String) → has_prefix s (p +++ q) ≡ true → has_prefix (drop_chars s p) q ≡ true
unfolding has_prefix drop_chars
has_prefix-drop_chars s String.[] q h = rw nil-append at h
has_prefix-drop_chars String.[] (String.◌∷◌ d p) q h = let k = rw cons-append at h in cc
has_prefix-drop_chars (String.◌∷◌ c s) (String.◌∷◌ d p) q h =
    let k = rw cons-append at h in has_prefix-drop_chars s p q (ground arith)

-- What is left of a text with the prefix `p +++ q`, without `p`, has the prefix `q`.
pub has_prefix-trim_prefix :
    (s p q : String) → has_prefix s (p +++ q) ≡ true → has_prefix (trim_prefix s p) q ≡ true
unfolding trim_prefix
has_prefix-trim_prefix s p q h =
    let k = has_prefix_trans s (p +++ q) p h (has_prefix-append p q) in
    rw k (has_prefix-drop_chars s p q h)

-- A Go map with string keys, as an association list; nil is the empty map, since reading a nil map
-- is allowed and the code makes one before it writes.
abbrev pub Dict {ℓ} : Type ℓ → Type ℓ
Dict V = List (String × V)

module _ {ℓ} {V : Type ℓ} where
  unfoldable pub lookup : String → Dict V → Option V
  lookup key [] = none
  lookup key ((name, value) ∷ others) = if str_eq name key then some value else lookup key others

  unfoldable pub insert : String → V → Dict V → Dict V
  insert key new [] = (key, new) ∷ []
  insert key new ((name, value) ∷ others) =
      if str_eq name key then (key, new) ∷ others else (name, value) ∷ insert key new others

  -- delete(m, k)
  unfoldable pub remove : String → Dict V → Dict V
  remove k [] = []
  remove k ((j, w) ∷ m) = let rest = remove k m in if str_eq j k then rest else (j, w) ∷ rest

  pub lookup-insert :
      (key other : String) (new : V) (d : Dict V)
      → lookup other (insert key new d) ≡ (if str_eq key other then some new else lookup other d)
  unfolding lookup insert
  lookup-insert key other new [] = refl
  lookup-insert key other new ((name, value) ∷ others) =
      let tail = lookup-insert key other new others in
      ground (arith, tail, eq_iff key other, eq_iff name key, eq_iff name other)

  pub lookup-remove :
      (k j : String) (m : Dict V)
      → lookup j (remove k m) ≡ (if str_eq k j then none else lookup j m)
  unfolding lookup remove
  lookup-remove k j [] = ground arith
  lookup-remove k j ((i, v) ∷ m) =
      ground (arith, lookup-remove k j m, eq_iff i k, eq_iff i j, eq_iff k j)

  -- No key stands twice.
  abbrev pub has_key : String → Dict V → Bool
  has_key k [] = false
  has_key k ((j, v) ∷ m) = str_eq j k || has_key k m

  unfoldable pub is_unique : Dict V → Bool
  is_unique [] = true
  is_unique ((k, v) ∷ m) = not (has_key k m) && is_unique m

  pub has_key-append :
      (k : String) (m n : Dict V) → has_key k (m ++ n) ≡ (has_key k m || has_key k n)
  has_key-append k [] n = refl
  has_key-append k ((j, v) ∷ m) n = ground (arith, has_key-append k m n)

  -- The key after the first part is not in it.
  pub is_unique-append :
      (k : String) (v : V) (m n : Dict V) → is_unique (m ++ (k, v) ∷ n) ≡ true → has_key k m ≡ false
  unfolding is_unique
  is_unique-append k v [] n h = refl
  is_unique-append k v ((j, w) ∷ m) n h =
      ground
        (arith, is_unique-append k v m n, has_key-append j m ((k, v) ∷ n), eq_iff k j, eq_iff j k)
