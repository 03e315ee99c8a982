-- ===== src/Prometheus/Reading.antt =====
-- A reader of the text that a scrape writes, which knows neither the names nor the labels. It splits the
-- page into lines, and a line at its quotes.
use koprobe.Prelude.{
  ℕ, ◌≡◌, refl, sym, ap, ◌∙◌, Bool, true, false, not, ◌&&◌, ◌==◌, nat_eq, nat_beq_iff, Text, codes,
  All, Option, none, some, List, [], ◌∷◌, ◌++◌, arith, if◌then◌else◌,
}
use mathlib.Core.List.{append-nil, append_assoc}
use koprobe.Prometheus.Lines.{quote, print_label, print_labels, strip}

-- Splitting a text.

unfoldable pub prepend : ℕ → List Text → List Text
prepend x [] = (x ∷ []) ∷ []
prepend x (p ∷ ps) = (x ∷ p) ∷ ps

-- what stands between the places of a character, those before the first and after the last included
unfoldable pub pieces : ℕ → Text → List Text
unfolding prepend
pieces c [] = [] ∷ []
pieces c (x ∷ t) = let rest = pieces c t in if x == c then [] ∷ rest else prepend x rest

unfoldable pub lacks : ℕ → Text → Bool
lacks c [] = true
lacks c (x ∷ t) = not (x == c) && lacks c t

pub lacks-append :
    (c : ℕ) (s t : Text) → lacks c s ≡ true → lacks c t ≡ true → lacks c (s ++ t) ≡ true
unfolding lacks
lacks-append c [] t h k = k
lacks-append c (x ∷ s) t h k =
    let rest = lacks-append c s t (ground arith) k in ground (arith, rest)

pub pieces-append :
    (c : ℕ) (p t : Text) → lacks c p ≡ true → pieces c (p ++ (c ∷ t)) ≡ p ∷ pieces c t
unfolding pieces lacks prepend
pieces-append c [] t h = ground (arith, nat_beq_iff c c)
pieces-append c (x ∷ p) t h =
    let rest = pieces-append c p t (ground arith) in
    let other : (x == c) ≡ false = ground arith in rw (pieces, other, rest) refl

pub pieces_whole : (c : ℕ) (p : Text) → lacks c p ≡ true → pieces c p ≡ p ∷ []
unfolding pieces lacks prepend
pieces_whole c [] h = refl
pieces_whole c (x ∷ p) h =
    let rest = pieces_whole c p (ground arith) in
    let other : (x == c) ≡ false = ground arith in rw (pieces, other, rest) refl

-- A name, a key or the digits of a number: no line feed, space, quote, equals sign or brace.
abbrev pub IsWord : Text → Type 0
IsWord t =
    (lacks 10 t ≡ true)
    × (lacks 32 t ≡ true)
    × (lacks 34 t ≡ true)
    × (lacks 61 t ≡ true)
    × (lacks 123 t ≡ true)

-- for every word that is written out, whose test computes
pub word : IsWord []
unfolding lacks
word = (refl, refl, refl, refl, refl)

-- The value of a label: no line feed or quote.
abbrev pub IsValue : Text → Type 0
IsValue t = (lacks 10 t ≡ true) × (lacks 34 t ≡ true)

-- Reading the labels and the digits of a line.

unfoldable pub key_in : List Text → Option Text
key_in (k ∷ [] ∷ []) = some k
key_in _ = none

-- `,key=`
unfoldable pub read_key : Text → Option Text
unfolding key_in
read_key t = elim (strip (codes ",") t) [ none ↦ none | some k ↦ key_in (pieces 61 k) ]

unfoldable pub read_rest : List Text → Option (List (Text × Text) × Text)
unfolding read_key
read_rest [] = none
read_rest (p ∷ []) = elim (strip (codes "} ") p) [ none ↦ none | some digits ↦ some ([], digits) ]
read_rest (p ∷ v ∷ ps) = elim (read_key p) [
  | none ↦ none
  | some k ↦ elim (read_rest ps) [ none ↦ none | some (ls, digits) ↦ some ((k, v) ∷ ls, digits) ]
]

-- A sample as its line says it, with the digits of its value.
pub record Line : Type 0 where
  pub name : Text
  pub labels : List (Text × Text)
  pub digits : Text

-- the line of a sample without labels: two words
unfoldable pub read_words : List Text → Option Line
read_words (name ∷ digits ∷ []) = some (record { name = name; labels = []; digits = digits })
read_words _ = none

-- the name and the first key, of the part of a line before the first quote
unfoldable pub read_braced : List Text → List Text → Option Line
unfolding read_rest
read_braced (name ∷ key ∷ []) ps = elim (read_rest ((44 ∷ key) ∷ ps)) [
  | none ↦ none
  | some (ls, digits) ↦ some (record { name = name; labels = ls; digits = digits })
]
read_braced _ ps = none

unfoldable pub read_line : List Text → Option Line
unfolding read_words read_braced
read_line [] = none
read_line (p ∷ []) = read_words (pieces 32 p)
read_line (p ∷ q ∷ ps) = read_braced (pieces 123 p) (q ∷ ps)

unfoldable pub read_end : Text → Option (List Line)
read_end [] = some []
read_end (x ∷ p) = none

-- all lines but the last, which is empty, as the page ends with a line feed
unfoldable pub read_lines : List Text → Option (List Line)
unfolding read_end read_line
read_lines [] = none
read_lines (p ∷ []) = read_end p
read_lines (p ∷ q ∷ ps) = elim (read_line (pieces quote p)) [
  | none ↦ none
  | some line ↦ elim (read_lines (q ∷ ps)) [ none ↦ none | some lines ↦ some (line ∷ lines) ]
]

unfoldable pub read_page : Text → Option (List Line)
unfolding read_lines
read_page t = read_lines (pieces 10 t)

-- What a page has of the labels after the first one.

unfoldable pub more_labels : List (Text × Text) → Text
unfolding print_label
more_labels [] = []
more_labels (l ∷ ls) = codes "," ++ (print_label l ++ more_labels ls)

pub print_labels-eq-more_labels :
    (l : Text × Text) (ls : List (Text × Text))
    → print_labels (l ∷ ls) ≡ print_label l ++ more_labels ls
unfolding print_labels more_labels
print_labels-eq-more_labels l [] = sym (append-nil (print_label l))
print_labels-eq-more_labels l (m ∷ ls) =
    ap (λ t. print_label l ++ (codes "," ++ t)) (print_labels-eq-more_labels m ls)

-- the pieces of those labels, and of what follows them
unfoldable pub label_pieces : List (Text × Text) → Text → List Text
label_pieces [] digits = (codes "} " ++ digits) ∷ []
label_pieces ((k, v) ∷ ls) digits = (codes "," ++ (k ++ codes "=")) ∷ v ∷ label_pieces ls digits

abbrev pub IsLabel : Text × Text → Type 0
IsLabel l = IsWord l.0 × IsValue l.1

read_key_lem : (key : Text) → IsWord key → read_key (codes "," ++ (key ++ codes "=")) ≡ some key
unfolding read_key key_in pieces strip
read_key_lem key (_, _, _, h, _) = ap key_in (pieces-append 61 key [] h)

pub read_rest-label_pieces :
    (ls : List (Text × Text)) (digits : Text)
    → All IsLabel ls
    → read_rest (label_pieces ls digits) ≡ some (ls, digits)
unfolding read_rest label_pieces strip
read_rest-label_pieces [] digits h = refl
read_rest-label_pieces ((k, v) ∷ ls) digits h =
    let key = read_key_lem k h.0.0 in
    let rest = read_rest-label_pieces ls digits h.1 in rw (read_rest, key, rest) refl

-- `,key="` up to the quote
lacks-key :
    (before key : Text)
    → lacks 34 before ≡ true
    → IsWord key
    → lacks 34 (before ++ (key ++ codes "=")) ≡ true
unfolding lacks
lacks-key before key h (_, _, k, _, _) =
    lacks-append 34 before _ h (lacks-append 34 key (codes "=") k refl)

-- a label, as its pieces are found
print_label-append :
    (before key value t : Text)
    → before ++ (print_label (key, value) ++ t)
      ≡ (before ++ (key ++ codes "=")) ++ (34 ∷ (value ++ (34 ∷ t)))
unfolding print_label
print_label-append before key value t =
    ap (λ l. before ++ l)
      (append_assoc key (codes "=\"" ++ (value ++ codes "\"")) t
        ∙ ap (λ l. key ++ (codes "=\"" ++ l)) (append_assoc value (codes "\"") t)
        ∙ sym (append_assoc key (codes "=") (34 ∷ (value ++ (34 ∷ t)))))
    ∙ sym (append_assoc before (key ++ codes "=") (34 ∷ (value ++ (34 ∷ t))))

pub pieces-label :
    (before : Text) (l : Text × Text) (t : Text)
    → lacks 34 before ≡ true
    → IsLabel l
    → pieces 34 (before ++ (print_label l ++ t))
      ≡ (before ++ (l.0 ++ codes "=")) ∷ l.1 ∷ pieces 34 t
pieces-label before (k, v) t h (word, (_, value)) =
    ap (pieces 34) (print_label-append before k v t)
    ∙ pieces-append 34 (before ++ (k ++ codes "=")) (v ++ (34 ∷ t)) (lacks-key before k h word)
    ∙ ap (λ ps. (before ++ (k ++ codes "=")) ∷ ps) (pieces-append 34 v t value)

pub pieces-more_labels :
    (ls : List (Text × Text)) (digits : Text)
    → All IsLabel ls
    → IsWord digits
    → pieces 34 (more_labels ls ++ (codes "} " ++ digits)) ≡ label_pieces ls digits
unfolding more_labels label_pieces lacks
pieces-more_labels [] digits h w = pieces_whole 34 (codes "} " ++ digits) w.2
pieces-more_labels (l ∷ ls) digits h w =
    ap (λ t. pieces 34 (codes "," ++ t))
      (append_assoc (print_label l) (more_labels ls) (codes "} " ++ digits))
    ∙ pieces-label (codes ",") l (more_labels ls ++ (codes "} " ++ digits)) refl h.0
    ∙ ap (λ ps. (codes "," ++ (l.0 ++ codes "=")) ∷ l.1 ∷ ps) (pieces-more_labels ls digits h.1 w)
