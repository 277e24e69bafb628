-- ===== src/Content/Texts.antt =====
-- The methods of Python's `str` that the pipeline uses, on texts by characters. White space is that
-- of ASCII.
use Prim.Native.String.{◌++◌ as append, count, [] as nil, ◌∷◌ as cons}
use package.text.Mathlib.Text.{starts_with}
use inuself.Base.{
  ℕ, zero, suc, ◌-◌, ◌/◌, ◌%◌, String, true, false, ◌&&◌, Option, none, some, List, [], ◌∷◌, ◌==◌,
  String_eq, get_elem?, elem, or_default, ltb, if◌then◌else◌,
}

abbrev pub digit : ℕ → String
digit n =
    or_default (get_elem? ("0" ∷ "1" ∷ "2" ∷ "3" ∷ "4" ∷ "5" ∷ "6" ∷ "7" ∷ "8" ∷ "9" ∷ []) n) ""

-- `str(n)`; as many steps as the number has digits are enough, and it has at most `n + 1`.
abbrev pub decimal : ℕ → ℕ → String
decimal zero n = ""
decimal (suc fuel) n =
    let rest = decimal fuel (n / 10) in if ltb n 10 then digit n else append rest (digit (n % 10))

abbrev pub str : ℕ → String
str n = decimal (suc n) n

abbrev pub spaces : List String
spaces = " " ∷ "\t" ∷ "\n" ∷ "\r" ∷ []

abbrev pub lstrip : String → String
lstrip nil = nil
lstrip (cons c s) = let rest = lstrip s in if elem (cons c nil) spaces then rest else cons c s

abbrev pub rstrip : String → String
rstrip nil = nil
rstrip (cons c s) =
    let rest = rstrip s in if rest == nil && elem (cons c nil) spaces then nil else cons c rest

unfoldable pub strip : String → String
strip s = rstrip (lstrip s)

-- `sep.join(ss)`.
abbrev pub join : String → List String → String
join sep [] = ""
join sep (s ∷ []) = s
join sep (s ∷ t ∷ ss) = append s (append sep (join sep (t ∷ ss)))

-- The pieces of a text after `current`, passing over `skip` characters of a separator.
unfoldable pub split_at : String → ℕ → ℕ → String → String → List String
split_at sep width skip current nil = current ∷ []
split_at sep width (suc skip) current (cons c s) = split_at sep width skip current s
split_at sep width zero current (cons c s) = elim (starts_with (cons c s) sep) [
  | true ↦ current ∷ split_at sep width width "" s
  | false ↦ split_at sep width zero (append current (cons c nil)) s
]

-- `s.split(sep)`.
unfoldable pub split : String → String → List String
unfolding split_at
split sep s = split_at sep (count sep - 1) 0 "" s

-- What stands before the last point.
abbrev pub before_point : String → Option String
before_point nil = none
before_point (cons c s) = elim (before_point s) [
  | none ↦ if cons c nil == "." then some nil else none
  | some before ↦ some (cons c before)
]

-- `name.rsplit(".", 1)[0] if "." in name else name`.
unfoldable pub base_name : String → String
base_name name = or_default (before_point name) name
