-- ===== src/Tui/Line/Spans.antt =====
-- The spans of a line are the line, cut where characters end.
use tapgres.Prelude.{
  ℕ, zero, suc, ◌+◌, ◌<◌, min, ◌≡◌, refl, sym, ap, ◌∙◌, subst, inl, inr, ◌⊎◌, true, false, Option,
  none, some, List, [], ◌∷◌, ◌++◌, append_assoc, append-nil, arith, Bool-cases,
}
use tapgres.Outcome.{value, panic, ◌>>=◌}
use tapgres.Event.{Text}
use tapgres.Filter.{codes, starts_with, has_substring}
use tapgres.Utf8.{len_utf8, utf8_len, split_at, slice, slice_from}
use tapgres.Utf8.Slices.{
  len_utf8-suc, starts_with-At, split_at-inside, utf8_len-++, slice_from_at, slice_at,
}
use tapgres.Tui.{Run}
use tapgres.Tui.Line.{
  Span, LineParts, find, tag_f2b, tag_b2f, direction_split, kind_at, parts_at, parse_line, spans_of,
  Color, chosen, parts_of, cyan, magenta, dark_gray, behind, head_spans, full_spans, build_line,
  plain,
}

-- Where `find` finds.
abbrev At : Text → Text → ℕ → Type 0
At needle t p = (pre : Text) × (rest : Text) × (t ≡ pre ++ needle ++ rest) × (p ≡ utf8_len pre)

find-At : (needle t : Text) (p : ℕ) → find needle t ≡ some p → At needle t p
unfolding find utf8_len
find-At needle [] p e = elim (Bool-cases (starts_with needle [])) [
  | inl f ↦ let (rest, g) = starts_with-At needle [] f in ([], rest, g, cc)
  | inr f ↦ let bad : none ≡ some p = cc in cc
]
find-At needle (c ∷ t) p e = elim (Bool-cases (starts_with needle (c ∷ t))) [
  | inl f ↦ let (rest, g) = starts_with-At needle (c ∷ t) f in ([], rest, g, cc)
  | inr f ↦
      let g : behind (len_utf8 c) (find needle t) ≡ some p = cc in
      later (λ q. find-At needle t q) (find needle t) refl g
]
  where
    later :
        ((q : ℕ) → find needle t ≡ some q → At needle t q)
        → (o : Option ℕ) → find needle t ≡ o
        → behind (len_utf8 c) o ≡ some p
        → At needle (c ∷ t) p
    later rec none found e = cc
    later rec (some q) found e = let (pre, rest, g, h) = rec q found in (c ∷ pre, rest, cc, cc)

pub joined : List Span → Text
joined [] = []
joined (s ∷ rest) = s.content ++ joined rest

abbrev pieces : Color → Text → Text → Text → Text → Text → List Span
pieces color a b c d e =
    record { content = a; color = some dark_gray; bold = false }
    ∷ record { content = b; color = some color; bold = true }
    ∷ record { content = c; color = none; bold = false }
    ∷ record { content = d; color = some color; bold = true }
    ∷ plain none e

-- The spans of a line in five pieces.
spans_at :
    (a b c d e : Text) (p : LineParts)
    → p.prefix_end ≡ utf8_len a
    → p.tag_end ≡ utf8_len (a ++ b)
    → p.kind_start ≡ utf8_len ((a ++ b) ++ c)
    → p.kind_end ≡ utf8_len (((a ++ b) ++ c) ++ d)
    → (s : List Span) × (full_spans (a ++ b ++ c ++ d ++ e) p ≡ value s)
      × (joined s ≡ a ++ b ++ c ++ d ++ e)
unfolding full_spans head_spans joined utf8_len
spans_at a b c d e p ha hb hc hd =
    let line = a ++ b ++ c ++ d ++ e in
    let s1 : slice {E = ⊥} 0 p.prefix_end line ≡ value a =
      slice_at [] a (b ++ (c ++ (d ++ e))) line 0 p.prefix_end (simp append_assoc refl) refl
        (omega arith) in
    let s2 : slice {E = ⊥} p.prefix_end p.tag_end line ≡ value b =
      slice_at a b (c ++ (d ++ e)) line p.prefix_end p.tag_end (simp append_assoc refl) ha
        (hb ∙ utf8_len-++ a b) in
    let s3 : slice {E = ⊥} p.tag_end p.kind_start line ≡ value c =
      slice_at (a ++ b) c (d ++ e) line p.tag_end p.kind_start simp append_assoc refl hb
        (hc ∙ utf8_len-++ (a ++ b) c) in
    let s4 : slice {E = ⊥} p.kind_start p.kind_end line ≡ value d =
      slice_at ((a ++ b) ++ c) d e line p.kind_start p.kind_end simp append_assoc refl hc
        (hd ∙ utf8_len-++ ((a ++ b) ++ c) d) in
    let s5 : slice_from {E = ⊥} p.kind_end line ≡ value e =
      slice_from_at (((a ++ b) ++ c) ++ d) e line p.kind_end simp append_assoc refl hd in
    (
      pieces p.color a b c d e,
      rw s1 (rw s2 (rw s3 (rw s4 (rw s5 refl)))),
      simp (append_assoc, append-nil) refl,
    )

-- What comes of drawing a line: spans that make up the line, or a panic because a character of more than one byte
-- stands right behind a tag.
pub data Drawn (line : Text) : Run (List Span) → Type 0 where
  drawn : {spans : List Span} → joined spans ≡ line → Drawn line (value spans)
  broken :
      (pre tag rest : Text) (c : ℕ)
      → tag ≡ tag_f2b ⊎ tag ≡ tag_b2f
      → line ≡ pre ++ tag ++ (c ∷ rest)
      → 1 < len_utf8 c
      → Drawn line panic

tail_split :
    (t line : Text) (k : ℕ)
    → utf8_len line ≡ k + utf8_len t
    → (d : Text) × (e : Text) × (t ≡ d ++ e) × (kind_at line k t ≡ k + utf8_len d)
tail_split t line k h = go (find (codes ": ") t) refl
  where
    go :
        (o : Option ℕ)
        → find (codes ": ") t ≡ o
        → (d : Text) × (e : Text) × (t ≡ d ++ e) × (kind_at line k t ≡ k + utf8_len d)
    go none found = (
      t,
      [],
      sym (append-nil t),
      ap (λ o. elim o as (λ x. ℕ) [ none ↦ utf8_len line | some p ↦ k + p ]) found ∙ h,
    )
    go (some q) found =
        let (pre, rest, g, l) = find-At (codes ": ") t q found in
        (
          pre,
          codes ": " ++ rest,
          g ∙ append_assoc pre (codes ": ") rest,
          ap (λ o. elim o as (λ x. ℕ) [ none ↦ utf8_len line | some p ↦ k + p ]) found
              ∙ ap (λ n. k + n) l,
        )

abbrev spans_found : Text → Color × ℕ × ℕ → Run (List Span)
spans_found line found =
    (parts_at line found >>= λ p. value (some p)) >>= spans_of line (full_spans line)

whole :
    (a b c t line : Text) (color : Color)
    → line ≡ a ++ b ++ c ++ t
    → min (utf8_len a + utf8_len b + 1) (utf8_len line) ≡ utf8_len (a ++ b ++ c)
    → Drawn line (spans_found line (color, utf8_len a, utf8_len a + utf8_len b))
whole a b c t line color f m =
    let k = utf8_len (a ++ b ++ c) in
    let l : utf8_len line ≡ k + utf8_len t = ap utf8_len f ∙ utf8_len-++ (a ++ b ++ c) t in
    let (d, e, g, n) = tail_split t line k l in
    let p : LineParts = record {
      color = color;
      prefix_end = utf8_len a;
      tag_end = utf8_len a + utf8_len b;
      kind_start = k;
      kind_end = kind_at line k t;
    } in
    let f' : line ≡ a ++ b ++ c ++ d ++ e =
      f ∙ ap (λ x. a ++ b ++ c ++ x) g ∙ sym (append_assoc (a ++ b ++ c) d e) in
    let (s, made, all) =
      spans_at a b c d e p refl (sym (utf8_len-++ a b)) refl
        (n ∙ sym (utf8_len-++ (a ++ b ++ c) d)) in
    rw (m, slice_from_at (a ++ b ++ c) t line k f refl)
      (subst (λ r. Drawn line r) (sym (ap (λ x. full_spans x p) f' ∙ made)) (drawn (all ∙ sym f')))

slice_from-panic :
    (i : ℕ) (line : Text) → split_at {E = ⊥} i line ≡ panic → slice_from {E = ⊥} i line ≡ panic
unfolding slice_from
slice_from-panic i line e = ap (λ r. r >>= λ (front, back). value back) e

at_tag :
    (line pre tag rest : Text) (color : Color)
    → tag ≡ tag_f2b ⊎ tag ≡ tag_b2f
    → line ≡ pre ++ tag ++ rest
    → Drawn line (spans_found line (color, utf8_len pre, utf8_len pre + utf8_len tag))
unfolding utf8_len
at_tag line pre tag [] color is_tag f =
    let g : utf8_len line ≡ utf8_len pre + utf8_len tag =
      ap utf8_len (f ∙ append-nil (pre ++ tag)) ∙ utf8_len-++ pre tag in
    let h : utf8_len (pre ++ tag ++ []) ≡ utf8_len pre + utf8_len tag = ap utf8_len (sym f) ∙ g in
    whole pre tag [] [] line color (f ∙ sym (append-nil (pre ++ tag ++ []))) (omega arith)
at_tag line pre tag (c ∷ rest) color is_tag f = let (l, e) = len_utf8-suc c in go l e
  where
    size : utf8_len line ≡ utf8_len pre + utf8_len tag + (len_utf8 c + utf8_len rest)
    size =
        ap utf8_len f
        ∙ utf8_len-++ (pre ++ tag) (c ∷ rest)
        ∙ ap (λ n. n + (len_utf8 c + utf8_len rest)) (utf8_len-++ pre tag)

    go :
        (l : ℕ)
        → len_utf8 c ≡ suc l
        → Drawn line (spans_found line (color, utf8_len pre, utf8_len pre + utf8_len tag))
    go zero e =
        let s = utf8_len-++ (pre ++ tag) (c ∷ []) in
        let t = utf8_len-++ pre tag in
        let one : utf8_len (c ∷ []) ≡ 1 = omega arith in
        whole pre tag (c ∷ []) rest line color (f ∙ sym (append_assoc (pre ++ tag) (c ∷ []) rest))
          (omega (arith, size))
    go (suc l) e =
        let t = utf8_len-++ pre tag in
        let k : min (utf8_len pre + utf8_len tag + 1) (utf8_len line) ≡ utf8_len (pre ++ tag) + 1 =
          omega (arith, size) in
        let inside =
          ap (split_at (utf8_len (pre ++ tag) + 1)) f ∙ split_at-inside (pre ++ tag) c rest l e in
        rw (k, slice_from-panic (utf8_len (pre ++ tag) + 1) line inside)
          (broken pre tag rest c is_tag f (omega arith))

abbrev pub drawn_at : Text → Option (Color × ℕ × ℕ) → Run (List Span)
drawn_at line found = parts_of line found >>= spans_of line (full_spans line)

pub drawn_at-Drawn :
    (line : Text) (f b : Option ℕ)
    → find tag_f2b line ≡ f
    → find tag_b2f line ≡ b
    → Drawn line (drawn_at line (chosen f b))
unfolding joined
drawn_at-Drawn line (some start) b e e' =
    let (pre, rest, g, l) = find-At tag_f2b line start e in
    subst (λ n. Drawn line (spans_found line (cyan, n, n + utf8_len tag_f2b))) (sym l)
      (at_tag line pre tag_f2b rest cyan (inl refl) g)
drawn_at-Drawn line none (some start) e e' =
    let (pre, rest, g, l) = find-At tag_b2f line start e' in
    subst (λ n. Drawn line (spans_found line (magenta, n, n + utf8_len tag_b2f))) (sym l)
      (at_tag line pre tag_b2f rest magenta (inr refl) g)
drawn_at-Drawn line none none e e' = drawn (append-nil line)

-- For every line: either its spans make up the line, unchanged, or the line is not drawn because of a panic, and then
-- a character of more than one byte stands right behind a direction's tag in it.
pub build_line-Drawn : (line : Text) → Drawn line (build_line line)
unfolding build_line parse_line direction_split joined
build_line-Drawn line = elim (Bool-cases (has_substring (codes "⚠") line)) [
  | inl e ↦ rw e (drawn (append-nil line))
  | inr e ↦ rw e (elim (Bool-cases (has_substring (codes "===") line)) [
    | inl f ↦ rw f (drawn (append-nil line))
    | inr f ↦ rw f (drawn_at-Drawn line (find tag_f2b line) (find tag_b2f line) refl refl)
  ])
]
