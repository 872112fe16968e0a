-- ===== src/State/Pins/Lines.antt =====
-- What is read from a file of pins that was written.
use shrine.Prelude.{
  All, All-imp, All-sort_by, All-zip, List, Nodup, String, [], ap, arith, before, dec_str, eq_int,
  eq_pair, eq_str, fields, if◌then◌else◌, insert, is_space, join, keys, lookup, lookup-insert, map,
  mem, mem-keys, mem-map-sort_by, nonempty, refl, some, split, split_space, true, ◌∙◌, ◌∷◌, ◌≡◌,
  ◌⊕◌,
}
use shrine.State.Deployments.Words.{IsWord, before-missing, fields-join, join-has_char, split-line}
use shrine.State.Pins.{
  Clock, ImagePin, Pins, contains, load_pin_lines, load_pins, parse_pin_fields, pin_line,
  print_each, print_pins, put_pin, sorted_pins,
}

module _ (clock : Clock) where
  -- A pin that one line holds.
  pub record IsStorable (p : ImagePin) : Type 0 where
    pub kind : IsWord p.kind
    pub name : IsWord p.name
    pub requested : IsWord p.requested
    pub pinned : IsWord p.pinned
    pub digest : contains p.pinned "@sha256:" ≡ true
    pub time : IsWord (clock.format p.pinned_at)
    pub clocked : clock.parse (clock.format p.pinned_at) ≡ some p.pinned_at

  abbrev tail_words : ImagePin → List String
  tail_words p = p.name ∷ p.requested ∷ p.pinned ∷ clock.format p.pinned_at ∷ []

  words-IsWord : (p : ImagePin) → IsStorable p → All IsWord (p.kind ∷ tail_words p)
  words-IsWord p s = (s.kind, (s.name, (s.requested, (s.pinned, (s.time, tt)))))

  parse_line :
      (p : ImagePin)
      → IsStorable p
      → parse_pin_fields clock (fields (before b'#' (join " " (p.kind ∷ tail_words p)))) ≡ some p
  unfolding is_space parse_pin_fields
  parse_line p s =
      let words = words-IsWord p s in
      rw
        (
          before-missing b'#' (join " " (p.kind ∷ tail_words p))
              (join-has_char b'#' p.kind (tail_words p) refl refl words),
          fields-join p.kind (tail_words p) words,
          s.digest,
          s.clocked,
        )
        refl

  load_pin_lines-line :
      (p : ImagePin) (text : String) (m : Pins)
      → IsStorable p
      → load_pin_lines clock (split b'\n' (pin_line clock p ⊕ text)) m
        ≡ load_pin_lines clock (split b'\n' text) (insert p.name p m)
  unfolding load_pin_lines pin_line is_space
  load_pin_lines-line p text m s =
      ap (λ ls. load_pin_lines clock ls m)
        (split-line (join " " (p.kind ∷ tail_words p)) text
          (join-has_char b'\n' p.kind (tail_words p) refl refl (words-IsWord p s)))
      ∙ ap (λ o. load_pin_lines clock (split b'\n' text) (put_pin o m)) (parse_line p s)

  load_pin_lines-print_each :
      (m acc : Pins) (ps : List ImagePin)
      → All (λ p. (lookup p.name m ≡ some p) × IsStorable p) ps
      → (j : String)
      → lookup j (load_pin_lines clock (split b'\n' (print_each clock ps)) acc)
        ≡ (if mem j (map (λ p. p.name) ps) then lookup j m else lookup j acc)
  unfolding load_pin_lines print_each mem fields split_space nonempty parse_pin_fields split before
      shrine.Prelude.dec_str
  load_pin_lines-print_each m acc [] h j = refl
  load_pin_lines-print_each m acc (p ∷ ps) ((found, storable), rest) j =
      rw (load_pin_lines-line p (print_each clock ps) acc storable) (
        ground (
          arith,
          load_pin_lines-print_each m (insert p.name p acc) ps rest j,
          lookup-insert j p.name p acc,
          found,
        ))

  -- Every pin of the map stands under its name and fits on a line.
  pub record IsStored (m : Pins) : Type 0 where
    pub once : Nodup (keys m)
    pub storable : All (λ r. (r.1.name ≡ r.0) × IsStorable r.1) m

  entries-found : (m : Pins) → Nodup (keys m) → All (λ r. lookup r.0 m ≡ some r.1) m
  unfolding lookup mem
  entries-found [] d = tt
  entries-found ((k, p) ∷ m) d =
      (ground arith, All-imp (λ r e. ground (arith, e, mem-keys k m, d.0)) m (entries-found m d.1))

  All-map-values :
      (P : ImagePin → Type 0) (m : Pins) → All (λ r. P r.1) m → All P (map (λ r. r.1) m)
  All-map-values P [] a = tt
  All-map-values P (r ∷ m) a = (a.0, All-map-values P m a.1)

  names-keys :
      (m : Pins)
      → All (λ r. (r.1.name ≡ r.0) × IsStorable r.1) m
      → map (λ p. p.name) (map (λ r. r.1) m) ≡ keys m
  names-keys [] a = refl
  names-keys (r ∷ m) a = cc (a.0.0, names-keys m a.1)

  -- Reading the file that was written for a map of pins gives the map back, when each
  -- stands under its name and fits on a line: no white space and no `#` in a field, none empty, the version with a digest, and a time
  -- that package time parses back.
  pub load_pins-print_pins :
      (m : Pins)
      → IsStored m
      → (j : String) → lookup j (load_pins clock (some (print_pins clock m))) ≡ lookup j m
  unfolding load_pins print_pins sorted_pins lookup
  load_pins-print_pins m h j =
      let entries : All (λ r. (lookup r.1.name m ≡ some r.1) × IsStorable r.1) m =
        All-zip (λ r e s. (ap (λ n. lookup n m) s.0 ∙ e, s.1)) m (entries-found m h.once)
          h.storable in
      let sorted_entries : All (λ p. (lookup p.name m ≡ some p) × IsStorable p) (sorted_pins m) =
        All-sort_by (λ p. p.name) (λ p. (lookup p.name m ≡ some p) × IsStorable p)
          (map (λ r. r.1) m)
          (All-map-values (λ p. (lookup p.name m ≡ some p) × IsStorable p) m entries) in
      let names =
        mem-map-sort_by (λ p. p.name) j (map (λ r. r.1) m)
        ∙ ap (λ ks. mem j ks) (names-keys m h.storable) in
      ground (
        arith,
        load_pin_lines-print_each m [] (sorted_pins m) sorted_entries j,
        names,
        mem-keys j m,
      )
