-- ===== src/Prometheus/Lines.antt =====
-- How a line of a scrape is printed: a sample's labels are its lines' `{…}`. The digits of a number are
-- those that `fmt.Fprintf` makes of it.
use koprobe.Prelude.{
  ℕ, ◌≡◌, refl, sym, ap, ◌∙◌, Bool, true, not, ◌&&◌, ◌==◌, nat_eq, nat_beq_iff, Text, codes, All,
  map, Option, none, some, List, [], ◌∷◌, ◌++◌, arith, if◌then◌else◌,
}
use mathlib.Core.List.{append-nil, append_assoc}
use koprobe.Prometheus.{Sample, Value}

abbrev pub quote : ℕ
quote = 34

-- `k="%s"`
unfoldable pub print_label : Text × Text → Text
print_label (key, value) = key ++ (codes "=\"" ++ (value ++ codes "\""))

-- the labels with commas between them
unfoldable pub print_labels : List (Text × Text) → Text
unfolding print_label
print_labels [] = []
print_labels (l ∷ []) = print_label l
print_labels (l ∷ m ∷ ls) = print_label l ++ (codes "," ++ print_labels (m ∷ ls))

-- `name{labels} value`, and without braces where there are no labels
unfoldable pub print_sample : {F : Type 0} → (Value F → Text) → Sample F → Text
unfolding print_labels
print_sample digits s =
    s.name
    ++ (elim s.labels [ [] ↦ [] | l ∷ ls ↦ codes "{" ++ (print_labels (l ∷ ls) ++ codes "}") ]
        ++ (codes " " ++ (digits s.value ++ (10 ∷ []))))

-- what follows a prefix
unfoldable pub strip : Text → Text → Option Text
strip [] t = some t
strip (c ∷ p) [] = none
strip (c ∷ p) (x ∷ t) = let rest = strip p t in if c == x then rest else none

pub strip-append : (p t : Text) → strip p (p ++ t) ≡ some t
unfolding strip
strip-append [] t = refl
strip-append (c ∷ p) t = ground (arith, strip-append p t, nat_beq_iff c c)

-- what stands before the next quote, and what follows it
unfoldable pub until_quote : Text → Option (Text × Text)
until_quote [] = none
until_quote (x ∷ t) =
    let rest = until_quote t in
    if x == quote
    then some ([], t)
    else elim rest [ none ↦ none | some (v, after) ↦ some (x ∷ v, after) ]

-- no character is a quote
unfoldable pub is_bare : Text → Bool
is_bare [] = true
is_bare (x ∷ v) = not (x == quote) && is_bare v

until_quote-append : (v t : Text) → is_bare v ≡ true → until_quote (v ++ (quote ∷ t)) ≡ some (v, t)
unfolding until_quote is_bare
until_quote-append [] t h = refl
until_quote-append (x ∷ v) t h =
    let rest = until_quote-append v t (ground arith) in ground (arith, rest)

-- A reader of printed labels, for the names that it expects.
unfoldable pub read_label : Text → Text → Option (Text × Text)
read_label key t = elim (strip (key ++ codes "=\"") t) [ none ↦ none | some v ↦ until_quote v ]

unfoldable pub read_labels : List Text → Text → Option (List (Text × Text))
read_labels [] [] = some []
read_labels [] (x ∷ t) = none
read_labels (k ∷ []) t = elim (read_label k t) [
  | none ↦ none
  | some (v, []) ↦ some ((k, v) ∷ [])
  | some (v, x ∷ after) ↦ none
]
read_labels (k ∷ m ∷ ks) t = elim (read_label k t) [
  | none ↦ none
  | some (v, after) ↦ elim (strip (codes ",") after) [
    | none ↦ none
    | some others ↦ elim (read_labels (m ∷ ks) others) [
      | none ↦ none
      | some ls ↦ some ((k, v) ∷ ls)
    ]
  ]
]

print_label-append :
    (key value t : Text)
    → print_label (key, value) ++ t ≡ (key ++ codes "=\"") ++ (value ++ (quote ∷ t))
unfolding print_label
print_label-append key value t =
    append_assoc key (codes "=\"" ++ (value ++ codes "\"")) t
    ∙ ap (λ l. key ++ (codes "=\"" ++ l)) (append_assoc value (codes "\"") t)
    ∙ sym (append_assoc key (codes "=\"") (value ++ (quote ∷ t)))

read_label-print_label :
    (key value t : Text)
    → is_bare value ≡ true
    → read_label key (print_label (key, value) ++ t) ≡ some (value, t)
unfolding read_label
read_label-print_label key value t h =
    ap (read_label key) (print_label-append key value t)
    ∙ (rw (read_label, strip-append (key ++ codes "=\"") (value ++ (quote ∷ t)))
        (until_quote-append value t h))

-- The labels printed for a sample, whatever their names, are read back by whoever knows the names, if
-- no value has a quote in it.
pub read_labels-print_labels :
    (ls : List (Text × Text))
    → All (λ l. is_bare l.1 ≡ true) ls
    → read_labels (map (λ l. l.0) ls) (print_labels ls) ≡ some ls
unfolding print_labels read_labels strip
read_labels-print_labels [] h = refl
read_labels-print_labels ((k, v) ∷ []) h =
    let one =
      ap (read_label k) (sym (append-nil (print_label (k, v))))
      ∙ read_label-print_label k v [] h.0 in
    rw (read_labels, one) refl
read_labels-print_labels ((k, v) ∷ m ∷ ls) h =
    let one = read_label-print_label k v (codes "," ++ print_labels (m ∷ ls)) h.0 in
    let others = read_labels-print_labels (m ∷ ls) h.1 in rw (read_labels, one, others) refl
