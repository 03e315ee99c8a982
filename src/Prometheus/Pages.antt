-- ===== src/Prometheus/Pages.antt =====
-- A page of samples as it is read: its lines, one by one.
use koprobe.Prelude.{
  ◌≡◌, refl, sym, ap, ◌∙◌, true, nat_eq, text_eq, Text, codes, All, All-append, map, some, List, [],
  ◌∷◌, ◌++◌,
}
use mathlib.Core.List.{append_assoc}
use koprobe.Prometheus.{Sample, Value, each}
use koprobe.Prometheus.Lines.{print_label, print_labels, print_sample}
use koprobe.Prometheus.Reading.{
  pieces, lacks, lacks-append, pieces-append, pieces_whole, IsWord, IsLabel, Line, read_words,
  read_braced, read_line, read_end, read_lines, read_page, more_labels, print_labels-eq-more_labels,
  label_pieces, read_rest-label_pieces, pieces-label, pieces-more_labels,
}

pub All-each :
    {A B : Type 0} (P : B → Type 0) (f : A → List B) (xs : List A)
    → All (λ x. All P (f x)) xs
    → All P (each f xs)
unfolding each
All-each P f [] h = tt
All-each P f (x ∷ xs) h = All-append P (f x) (each f xs) h.0 (All-each P f xs h.1)

module _ {F : Type 0} (digits : Value F → Text) where
  -- what a sample's line says
  abbrev pub told : Sample F → Line
  told s = record { name = s.name; labels = s.labels; digits = digits s.value }

  abbrev pub IsPlain : Sample F → Type 0
  IsPlain s = IsWord s.name × All IsLabel s.labels × IsWord (digits s.value)

  -- the line of a sample, without its line feed
  unfoldable line_of : Sample F → Text
  line_of s =
      s.name
      ++ (elim s.labels [ [] ↦ [] | l ∷ ls ↦ codes "{" ++ (print_labels (l ∷ ls) ++ codes "}") ]
          ++ (codes " " ++ digits s.value))

  print_sample-eq-line_of : (s : Sample F) → print_sample digits s ≡ line_of s ++ (10 ∷ [])
  unfolding print_sample line_of
  print_sample-eq-line_of s =
      let marks : Text = elim s.labels [
        | [] ↦ []
        | l ∷ ls ↦ codes "{" ++ (print_labels (l ∷ ls) ++ codes "}")
      ] in
      sym (
        append_assoc s.name (marks ++ (codes " " ++ digits s.value)) (10 ∷ [])
        ∙ ap (λ t. s.name ++ t) (append_assoc marks (codes " " ++ digits s.value) (10 ∷ [])))

  line_of-eq-braced :
      (name : Text) (l : Text × Text) (ls : List (Text × Text)) (d : Text)
      → name ++ ((codes "{" ++ (print_labels (l ∷ ls) ++ codes "}")) ++ (codes " " ++ d))
        ≡ (name ++ codes "{") ++ (print_label l ++ (more_labels ls ++ (codes "} " ++ d)))
  line_of-eq-braced name l ls d =
      ap (λ t. name ++ (codes "{" ++ t))
        (append_assoc (print_labels (l ∷ ls)) (codes "}") (codes " " ++ d)
          ∙ ap (λ t. t ++ (codes "} " ++ d)) (print_labels-eq-more_labels l ls)
          ∙ append_assoc (print_label l) (more_labels ls) (codes "} " ++ d))
      ∙ sym (append_assoc name (codes "{") _)

  pieces-first :
      (name key : Text)
      → IsWord name
      → IsWord key
      → pieces 123 ((name ++ codes "{") ++ (key ++ codes "=")) ≡ name ∷ (key ++ codes "=") ∷ []
  unfolding lacks
  pieces-first name key w v =
      ap (pieces 123) (append_assoc name (codes "{") (key ++ codes "="))
      ∙ pieces-append 123 name (key ++ codes "=") w.4
      ∙ ap (λ ps. name ∷ ps)
          (pieces_whole 123 (key ++ codes "=") (lacks-append 123 key (codes "=") v.4 refl))

  read_line-line_of :
      (name : Text) (ls : List (Text × Text)) (x : Value F)
      → IsPlain (record { name = name; labels = ls; value = x })
      → read_line (pieces 34 (line_of (record { name = name; labels = ls; value = x })))
        ≡ some (record { name = name; labels = ls; digits = digits x })
  unfolding line_of read_line read_words read_braced label_pieces lacks
  read_line-line_of name [] x (w, h, d) =
      ap read_line (
        pieces_whole 34 (name ++ (codes " " ++ digits x))
          (lacks-append 34 name (codes " " ++ digits x) w.2 d.2))
      ∙ ap read_words (
          pieces-append 32 name (digits x) w.1
          ∙ ap (λ ps. name ∷ ps) (pieces_whole 32 (digits x) d.1))
  read_line-line_of name ((k, v) ∷ ls) x (w, h, d) =
      ap (λ t. read_line (pieces 34 t)) (line_of-eq-braced name (k, v) ls (digits x))
      ∙ ap read_line (
          pieces-label (name ++ codes "{") (k, v) (more_labels ls ++ (codes "} " ++ digits x))
            (lacks-append 34 name (codes "{") w.2 refl) h.0
          ∙ ap (λ ps. ((name ++ codes "{") ++ (k ++ codes "=")) ∷ v ∷ ps)
              (pieces-more_labels ls (digits x) h.1 d))
      ∙ ap (λ ps. read_braced ps (v ∷ label_pieces ls (digits x))) (pieces-first name k w h.0.0)
      ∙ (rw (read_braced, read_rest-label_pieces ((k, v) ∷ ls) (digits x) h) refl)

  -- no line feed stands in the labels of a line, or in the line

  lacks-more_labels : (ls : List (Text × Text)) → All IsLabel ls → lacks 10 (more_labels ls) ≡ true
  unfolding more_labels lacks print_label
  lacks-more_labels [] h = refl
  lacks-more_labels ((k, v) ∷ ls) h =
      lacks-append 10 (print_label (k, v)) (more_labels ls)
        (lacks-append 10 k _ h.0.0.0 (lacks-append 10 v (codes "\"") h.0.1.0 refl))
        (lacks-more_labels ls h.1)

  lacks-line_of :
      (name : Text) (ls : List (Text × Text)) (x : Value F)
      → IsPlain (record { name = name; labels = ls; value = x })
      → lacks 10 (line_of (record { name = name; labels = ls; value = x })) ≡ true
  unfolding line_of lacks more_labels
  lacks-line_of name [] x (w, h, d) = lacks-append 10 name (codes " " ++ digits x) w.0 d.0
  lacks-line_of name (l ∷ ls) x (w, h, d) = lacks-append 10 name _ w.0 (
      lacks-append 10 (print_labels (l ∷ ls) ++ codes "}") (codes " " ++ digits x)
        (lacks-append 10 (print_labels (l ∷ ls)) (codes "}")
          (rw (print_labels-eq-more_labels l ls) (lacks-more_labels (l ∷ ls) h)) refl)
        d.0)

  pieces-samples :
      (xs : List (Sample F))
      → All IsPlain xs
      → pieces 10 (each (print_sample digits) xs) ≡ map line_of xs ++ ([] ∷ [])
  unfolding each pieces
  pieces-samples [] h = refl
  pieces-samples (s ∷ xs) h =
      ap (λ t. pieces 10 (t ++ each (print_sample digits) xs)) (print_sample-eq-line_of s)
      ∙ ap (pieces 10) (append_assoc (line_of s) (10 ∷ []) (each (print_sample digits) xs))
      ∙ pieces-append 10 (line_of s) (each (print_sample digits) xs)
          (lacks-line_of s.name s.labels s.value h.0)
      ∙ ap (λ ps. line_of s ∷ ps) (pieces-samples xs h.1)

  read_lines-samples :
      (xs : List (Sample F))
      → All IsPlain xs
      → read_lines (map line_of xs ++ ([] ∷ [])) ≡ some (map told xs)
  unfolding read_lines read_end
  read_lines-samples [] h = refl
  read_lines-samples (s ∷ []) h =
      rw (read_lines, read_line-line_of s.name s.labels s.value h.0) refl
  read_lines-samples (s ∷ y ∷ xs) h =
      let rest = read_lines-samples (y ∷ xs) h.1 in
      rw (read_lines, read_line-line_of s.name s.labels s.value h.0, rest) refl

  -- A page of samples is read back as what its samples say, in their order, if the names, the keys of
  -- the labels and the digits are words, and no label's value has a quote or a line feed in it.
  pub read_page-samples :
      (xs : List (Sample F))
      → All IsPlain xs
      → read_page (each (print_sample digits) xs) ≡ some (map told xs)
  unfolding read_page
  read_page-samples xs h = ap read_lines (pieces-samples xs h) ∙ read_lines-samples xs h
