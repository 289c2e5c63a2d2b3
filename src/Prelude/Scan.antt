-- ===== src/Prelude/Scan.antt =====
-- What Python's `str` and `re` answer on the texts that the program reads: stripped ends, lines, and
-- a text at the front. A text is walked character by character.
use Prim.Native.Char.{Char, code}
use Prim.Native.String.{String, [], ◌∷◌, ◌++◌}
use mathlib.Core.Path.{◌≡◌, refl}
use mathlib.Core.Bool.{Bool, true, false, ◌&&◌, ◌||◌}
use mathlib.Core.Option.{Option, none, some}
use mathlib.Core.List.{List}
use native.Mathlib.Omega.{arith}
use text.Mathlib.TextLemmas.{nil-append, cons-append}
use oreeai_notetaker.Prelude.Tests.{leb, ◌==◌, if◌then◌else◌}

abbrev pub is_empty : String → Bool
is_empty [] = true
is_empty (c ∷ s) = false

-- `c.isspace()`
abbrev pub is_space : Char → Bool
is_space c =
    let n = code c in
    (leb 9 n && leb n 13)
    || (leb 28 n && leb n 32)
    || n == 133
    || n == 160
    || n == 5760
    || (leb 8192 n && leb n 8202)
    || n == 8232
    || n == 8233
    || n == 8239
    || n == 8287
    || n == 12288

-- `s.rstrip()`, `s.lstrip()` and `s.strip()`
unfoldable pub rstrip : String → String
rstrip [] = []
rstrip (c ∷ s) = let rest = rstrip s in if is_space c && is_empty rest then [] else c ∷ rest

unfoldable pub lstrip : String → String
lstrip [] = []
lstrip (c ∷ s) = let rest = lstrip s in if is_space c then rest else c ∷ s

unfoldable pub strip : String → String
unfolding rstrip lstrip
strip s = rstrip (lstrip s)

-- The characters at which `splitlines` ends a line.
abbrev pub is_line_break : Char → Bool
is_line_break c =
    let n = code c in
    (leb 10 n && leb n 13) || (leb 28 n && leb n 30) || n == 133 || n == 8232 || n == 8233

-- A character in front of the first line.
abbrev pub glue : Char → List String → List String
glue c List.[] = List.◌∷◌ (c ∷ []) List.[]
glue c (List.◌∷◌ l ls) = List.◌∷◌ (c ∷ l) ls

-- `s.splitlines()`; `after_cr` says that a carriage return has just ended a line.
unfoldable pub lines_from : Bool → String → List String
lines_from after_cr [] = List.[]
lines_from after_cr (c ∷ s) =
    let skipped = lines_from false s in
    let broken = lines_from (code c == 13) s in
    if after_cr && code c == 10
    then skipped
    else if is_line_break c
    then List.◌∷◌ [] broken
    else glue c skipped

unfoldable pub splitlines : String → List String
unfolding lines_from
splitlines s = lines_from false s

-- What follows `p` at the front of `t`, if it stands there.
unfoldable pub after_prefix : String → String → Option String
after_prefix [] t = some t
after_prefix (d ∷ p) [] = none
after_prefix (d ∷ p) (c ∷ t) =
    let rest = after_prefix p t in if code c == code d then rest else none

pub after_prefix_append : (p t : String) → after_prefix p (p ++ t) ≡ some t
unfolding after_prefix
after_prefix_append [] t = rw (nil-append t) refl
after_prefix_append (d ∷ p) t =
    rw (cons-append d p t) (ground (arith, after_prefix, after_prefix_append p t))

-- Whether a newline stands in the text.
unfoldable pub has_newline : String → Bool
has_newline [] = false
has_newline (c ∷ s) = code c == 10 || has_newline s

pub has_newline-append :
    (s t : String) → has_newline s ≡ false → has_newline t ≡ false → has_newline (s ++ t) ≡ false
unfolding has_newline
has_newline-append [] t h k = rw (nil-append t) k
has_newline-append (c ∷ s) t h k =
    rw (cons-append c s t)
      (ground (arith, has_newline, has_newline-append s t (ground (arith, has_newline, h)) k))

pub is_empty-append : (s t : String) → is_empty s ≡ false → is_empty (s ++ t) ≡ false
is_empty-append [] t h = cc
is_empty-append (c ∷ s) t h = rw (cons-append c s t) refl

-- White space at the end goes, and what stands before it stays.
pub rstrip_line : (s : String) → rstrip (s ++ "}\n") ≡ s ++ "}"
unfolding rstrip
rstrip_line [] = refl
rstrip_line (c ∷ s) =
    rw (cons-append c s "}\n", cons-append c s "}") (ground (arith, rstrip, rstrip_line s, solid s))
  where
    solid : (s : String) → is_empty (s ++ "}") ≡ false
    solid [] = refl
    solid (c ∷ s) = rw (cons-append c s "}") refl

-- `s.endswith(")")`
unfoldable pub ends_with_paren : String → Bool
ends_with_paren [] = false
ends_with_paren (c ∷ s) = (is_empty s && code c == 41) || ends_with_paren s

-- `s[: s.rfind("(")]`, if there is one.
unfoldable pub before_last_paren : String → Option String
before_last_paren [] = none
before_last_paren (c ∷ s) = elim (before_last_paren s) [
  | some front ↦ some (c ∷ front)
  | none ↦ if code c == 40 then some [] else none
]
