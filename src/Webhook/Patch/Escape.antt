-- ===== src/Webhook/Patch/Escape.antt =====
-- The text of a key in a path (escapeJSONPointer of apis/webhook/pod_patch.go), and how a receiver reads it
-- back by RFC 6901.
use Prim.Native.Char.{Char, char, code, IsScalar}
use datakit_operator.Common.{
  Option, none, some, true, false, String, ◌≡◌, refl, sym, ap, ◌∙◌, if◌then◌else◌, eqb, Bool-cases,
  inl, inr, arith,
}
use mathlib.Core.Path.{subst}
use datakit_operator.Common.Text.{cons, replace_char}

abbrev tilde : Char
tilde = char 126 tt

abbrev slash : Char
slash = char 47 tt

abbrev zero_digit : Char
zero_digit = char 48 tt

abbrev one_digit : Char
one_digit = char 49 tt

-- 126 is a tilde and 47 a slash.
unfoldable pub escape_json_pointer : String → String
unfolding replace_char
escape_json_pointer s = replace_char 47 tilde one_digit (replace_char 126 tilde zero_digit s)

-- A tilde waits for the character after it: 48 is the digit 0, for the tilde itself, 49 the digit 1, for a
-- slash.
unescape_after : Option Char → String → String
unescape_after none String.[] = ""
unescape_after (some t) String.[] = cons t ""
unescape_after none (String.◌∷◌ c s) =
    let waiting = unescape_after (some c) s in
    let plain = unescape_after none s in if eqb (code c) 126 then waiting else cons c plain
unescape_after (some t) (String.◌∷◌ c s) =
    let rest = unescape_after none s in
    if eqb (code c) 48
    then cons t rest
    else if eqb (code c) 49
    then cons slash rest
    else cons t (cons c rest)

unfoldable pub unescape_json_pointer : String → String
unfolding unescape_after
unescape_json_pointer s = unescape_after none s

is_slash : (c : Char) → eqb (code c) 47 ≡ true → slash ≡ c
is_slash (char n h) e =
    let same : n ≡ 47 = ground (arith, e) in
    subst (λ k. (i : IsScalar k) → slash ≡ char k i) (sym same) (λ i. refl) h

is_tilde : (c : Char) → eqb (code c) 126 ≡ true → tilde ≡ c
is_tilde (char n h) e =
    let same : n ≡ 126 = ground (arith, e) in
    subst (λ k. (i : IsScalar k) → tilde ≡ char k i) (sym same) (λ i. refl) h

read_tilde :
    (r : String)
    → unescape_after none (replace_char 47 tilde one_digit (cons tilde (cons zero_digit r)))
      ≡ cons tilde (unescape_after none (replace_char 47 tilde one_digit r))
unfolding unescape_after replace_char
read_tilde r = refl

read_slash :
    (r : String)
    → unescape_after none (cons tilde (cons one_digit r)) ≡ cons slash (unescape_after none r)
unfolding unescape_after
read_slash r = refl

read_plain :
    (c : Char) (r : String)
    → eqb (code c) 126 ≡ false
    → unescape_after none (cons c r) ≡ cons c (unescape_after none r)
unfolding unescape_after
read_plain c r h = rw h refl

no_text : unescape_after none "" ≡ ""
unfolding unescape_after
no_text = refl

-- Reading the escaped text of a key by RFC 6901 gives the key.
pub unescape_json_pointer-escape_json_pointer :
    (s : String) → unescape_json_pointer (escape_json_pointer s) ≡ s
unfolding unescape_json_pointer escape_json_pointer replace_char
unescape_json_pointer-escape_json_pointer String.[] = no_text
unescape_json_pointer-escape_json_pointer (String.◌∷◌ c s) = elim (Bool-cases (eqb (code c) 126)) [
  | inl is_a_tilde ↦ rw is_a_tilde (
      read_tilde (replace_char 126 tilde zero_digit s)
      ∙ ap (λ d. cons d (unescape_json_pointer (escape_json_pointer s))) (is_tilde c is_a_tilde)
      ∙ ap (cons c) (unescape_json_pointer-escape_json_pointer s))
  | inr other ↦ elim (Bool-cases (eqb (code c) 47)) [
    | inl is_a_slash ↦
        rw (other, is_a_slash)
          (read_slash (replace_char 47 tilde one_digit (replace_char 126 tilde zero_digit s))
            ∙ ap (λ d. cons d (unescape_json_pointer (escape_json_pointer s)))
                (is_slash c is_a_slash)
            ∙ ap (cons c) (unescape_json_pointer-escape_json_pointer s))
    | inr plain ↦
        rw (other, plain)
          (read_plain c (replace_char 47 tilde one_digit (replace_char 126 tilde zero_digit s))
              other
            ∙ ap (cons c) (unescape_json_pointer-escape_json_pointer s))
  ]
]
