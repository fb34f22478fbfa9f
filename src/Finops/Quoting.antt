-- ===== src/Finops/Quoting.antt =====
-- Nothing but names and literals goes into the query: a reader of SQL reads the run ids back.
use Prim.Native.Char.{Char, code}
use Prim.Native.String.{[], ◌∷◌}
use text.Mathlib.TextLemmas.{nil-append, cons-append, append_assoc}
use spark_pilot.Prelude.{
  ℕ, zero, suc, ◌≡◌, refl, ap, ◌∙◌, inl, inr, String, Bool, true, false, ◌&&◌, ◌==◌, Option, none,
  some, length, str_append, Bool-cases, if◌then◌else◌,
}
use mathlib.Core.List as L
use mathlib.Core.List.{List}
use spark_pilot.Finops.Query.{double_quotes, quote_athena_literal, join_comma}

abbrev pub is_quote : ℕ → Bool
is_quote c = c == b'\''

abbrev keep_char : Char → Option (String × String) → Option (String × String)
keep_char c none = none
keep_char c (some (value, rest)) = some (c ∷ value, rest)

-- The rest of a SQL literal behind its opening quote: its value, and what follows its closing quote.
unfoldable pub read_body : String → Option (String × String)
read_body [] = none
read_body (c ∷ []) = if is_quote (code c) then some ("", "") else none
read_body (c ∷ d ∷ s) =
    let doubled = keep_char c (read_body s) in
    let longer = keep_char c (read_body (d ∷ s)) in
    if is_quote (code c) then if is_quote (code d) then doubled else some ("", d ∷ s) else longer

abbrev pub begins_quoted : String → Bool
begins_quoted [] = false
begins_quoted (c ∷ s) = is_quote (code c)

closes : (rest : String) → begins_quoted rest ≡ false → read_body ("'" ∷ rest) ≡ some ("", rest)
unfolding read_body
closes [] h = refl
closes (d ∷ s) h = rw h refl

skips :
    (c : Char) (s : String)
    → is_quote (code c) ≡ false
    → read_body (c ∷ s) ≡ keep_char c (read_body s)
unfolding read_body
skips c [] h = rw h refl
skips c (d ∷ s) h = rw h refl

halves :
    (c : Char) (s : String)
    → is_quote (code c) ≡ true
    → read_body (c ∷ c ∷ s) ≡ keep_char c (read_body s)
unfolding read_body
halves c s h = rw h refl

-- A literal behind its opening quote, and what follows it.
abbrev closed : String → String → String
closed value rest = str_append (double_quotes value) ("'" ∷ rest)

reads_body :
    (value rest : String)
    → begins_quoted rest ≡ false
    → read_body (closed value rest) ≡ some (value, rest)
unfolding double_quotes
reads_body [] rest h = rw nil-append (closes rest h)
reads_body (c ∷ s) rest h = elim (Bool-cases (is_quote (code c))) [
  | inl e ↦ rw (e, cons-append, cons-append, halves c (closed s rest) e, reads_body s rest h) refl
  | inr e ↦ rw (e, cons-append, skips c (closed s rest) e, reads_body s rest h) refl
]

-- A SQL literal and what follows it.
unfoldable pub read_literal : String → Option (String × String)
read_literal [] = none
read_literal (c ∷ s) = let body = read_body s in if is_quote (code c) then body else none

close_assoc :
    (value rest : String) → str_append (quote_athena_literal value) rest ≡ "'" ∷ closed value rest
unfolding quote_athena_literal
close_assoc value rest =
    cons-append "'" (str_append (double_quotes value) ("'" ∷ "")) rest
    ∙ ap (λ (t : String). "'" ∷ t)
        (append_assoc (double_quotes value) ("'" ∷ "") rest
          ∙ ap (λ (t : String). str_append (double_quotes value) t)
              (cons-append "'" "" rest ∙ ap (λ (t : String). "'" ∷ t) (nil-append rest)))

pub read-quote :
    (value rest : String)
    → begins_quoted rest ≡ false
    → read_literal (str_append (quote_athena_literal value) rest) ≡ some (value, rest)
unfolding read_literal
read-quote value rest h = rw (close_assoc value rest) (reads_body value rest h)

-- What follows a comma and a space.
abbrev after_comma : String → Option String
after_comma [] = none
after_comma (c ∷ []) = none
after_comma (c ∷ d ∷ s) = if code c == b',' && code d == b' ' then some s else none

abbrev keep_item : String → Option (List String × String) → Option (List String × String)
keep_item value none = none
keep_item value (some (values, rest)) = some (L.◌∷◌ value values, rest)

abbrev Items : Type 0
Items = Option (List String × String)

abbrev next_item : (String → Items) → (value rest : String) → Option String → Items
next_item more value rest none = some (L.◌∷◌ value L.[], rest)
next_item more value rest (some s) = keep_item value (more s)

abbrev first_item : (String → Items) → Option (String × String) → Items
first_item more none = none
first_item more (some (value, rest)) = next_item more value rest (after_comma rest)

-- The literals of an `IN` list behind its opening bracket, at most `n`, and what follows them.
unfoldable pub read_items : ℕ → String → Option (List String × String)
read_items zero s = none
read_items (suc n) s = first_item (read_items n) (read_literal s)

no_comma : (tail : String) → after_comma (")" ∷ tail) ≡ none
no_comma [] = refl
no_comma (c ∷ s) = refl

-- The list of ids in the query, and the rest from its closing bracket on, read back as the ids: no
-- character of an id ends a literal or the list.
pub read-join :
    (id : String) (ids : List String) (tail : String)
    → read_items
        (suc (length ids))
        (str_append (join_comma (L.map quote_athena_literal (L.◌∷◌ id ids))) (")" ∷ tail))
      ≡ some (L.◌∷◌ id ids, ")" ∷ tail)
unfolding read_items join_comma
read-join id L.[] tail =
    ap (first_item (read_items 0)) (read-quote id (")" ∷ tail) refl)
    ∙ ap (next_item (read_items 0) id (")" ∷ tail)) (no_comma tail)
read-join id (L.◌∷◌ next ids) tail =
    let more = str_append (join_comma (L.map quote_athena_literal (L.◌∷◌ next ids))) (")" ∷ tail) in
    ap (λ (s : String). first_item (read_items (suc (length ids))) (read_literal s))
      (append_assoc (quote_athena_literal id) _ (")" ∷ tail)
        ∙ ap (λ (s : String). str_append (quote_athena_literal id) s)
            (cons-append "," _ (")" ∷ tail)
              ∙ ap (λ (s : String). "," ∷ s) (cons-append " " _ (")" ∷ tail))))
    ∙ ap (first_item (read_items (suc (length ids)))) (read-quote id ("," ∷ " " ∷ more) refl)
    ∙ ap (keep_item id) (read-join next ids tail)
