-- ===== src/Consent/Template/Same.antt =====
-- `parseTemplate` of profile/packages/consent/src/template.mjs beside the one of
-- profile/packages/resolver/src/checks.mjs: what the loop of the first knows of the second's.
use candid_core.Common.{
  ℕ, ◌+◌, Bool, true, false, List, [], ◌∷◌, ◌++◌, ◌≡◌, refl, sym, ap, ◌∙◌, if◌then◌else◌, Option,
  none, some, append_assoc, append-nil, arith,
}
use candid_core.Format.Chars.{Text}
use candid_core.Resolver.Template.{Placeholder, Seen, add}
use candid_core.Consent.Template.{
  Part, lit, ph, TemplatePart, part, opt, State, push, clear, push_text, flush, begin_segment,
  parts_of, end_segment, in_segment, placeholders_of,
}

in_segment-append : (ps qs : List Part) → in_segment (ps ++ qs) ≡ in_segment ps ++ in_segment qs
in_segment-append [] qs = refl
in_segment-append (lit s ∷ ps) qs = in_segment-append ps qs
in_segment-append (ph path ∷ ps) qs = rw (in_segment-append ps qs) refl

placeholders_of-append :
    (ps qs : List TemplatePart)
    → placeholders_of (ps ++ qs) ≡ placeholders_of ps ++ placeholders_of qs
unfolding placeholders_of
placeholders_of-append [] qs = refl
placeholders_of-append (part (lit s) ∷ ps) qs = placeholders_of-append ps qs
placeholders_of-append (part (ph path) ∷ ps) qs = rw (placeholders_of-append ps qs) refl
placeholders_of-append (opt rs ∷ ps) qs =
    ap (λ l. in_segment rs ++ l) (placeholders_of-append ps qs)
    ∙ sym (append_assoc (in_segment rs) (placeholders_of ps) (placeholders_of qs))

-- How many optional segments a template has.
one_if_opt : TemplatePart → ℕ
one_if_opt (part p) = 0
one_if_opt (opt ps) = 1

unfoldable pub segments_of : List TemplatePart → ℕ
unfolding one_if_opt
segments_of [] = 0
segments_of (p ∷ ps) = one_if_opt p + segments_of ps

segments_of-append :
    (ps qs : List TemplatePart) → segments_of (ps ++ qs) ≡ segments_of ps + segments_of qs
unfolding segments_of
segments_of-append [] qs = omega arith
segments_of-append (p ∷ ps) qs = rw (segments_of-append ps qs) (omega arith)

-- The resolver's variables where the consent loop has these.
abbrev pub is_open : Option (List Part) → Bool
is_open none = false
is_open (some ps) = true

abbrev pub seen_of : List TemplatePart → Option (List Part) → Seen
seen_of top segment = record {
  placeholders = placeholders_of top ++ in_segment (parts_of segment);
  depth = is_open segment;
  segments = segments_of top + (if is_open segment then 1 else 0);
}

unfoldable pub seen : State → Seen
seen st = seen_of st.top st.segment

pub seen_eq :
    {ps qs : List Placeholder} {b : Bool} {m n : ℕ}
    → ps ≡ qs
    → m ≡ n
    → Path Seen
        (record { placeholders = ps; depth = b; segments = m })
        (record { placeholders = qs; depth = b; segments = n })
seen_eq h k = rw (h, k) refl

-- A part behind the others, in no segment.
placeholders_of-behind :
    (top : List TemplatePart) (p : TemplatePart) {seen_there : List Placeholder}
    → placeholders_of (p ∷ []) ≡ seen_there
    → placeholders_of (top ++ p ∷ []) ≡ placeholders_of top ++ seen_there
placeholders_of-behind top p h =
    placeholders_of-append top (p ∷ []) ∙ ap (λ l. placeholders_of top ++ l) h

segments_of-behind :
    (top : List TemplatePart) (p : TemplatePart)
    → segments_of (top ++ p ∷ []) ≡ segments_of top + one_if_opt p
unfolding segments_of
segments_of-behind top p = rw (segments_of-append top (p ∷ [])) (omega arith)

-- A literal is no placeholder, in a segment or outside.
seen-push-lit :
    (s : Text) (top : List TemplatePart) (segment : Option (List Part)) (text : Text)
    → seen (push (lit s) (record { top = top; segment = segment; text = text }))
      ≡ seen_of top segment
unfolding seen push placeholders_of one_if_opt
seen-push-lit s top none text =
    seen_eq
      (ap (λ l. l ++ [])
        (placeholders_of-behind top (part (lit s)) refl ∙ append-nil (placeholders_of top)))
      (rw (segments_of-behind top (part (lit s))) (omega arith))
seen-push-lit s top (some ps) text =
    seen_eq
      (ap (λ l. placeholders_of top ++ l)
        (in_segment-append ps (lit s ∷ []) ∙ append-nil (in_segment ps)))
      refl

pub seen-flush : (st : State) → seen (flush st) ≡ seen st
unfolding seen flush
seen-flush st = flushed st.text
  where
    flushed : (s : Text) → seen (clear (push_text s st)) ≡ seen st
    flushed [] = refl
    flushed (c ∷ s) = seen-push-lit (c ∷ s) st.top st.segment st.text

pub flush-open : (st : State) → is_open (flush st).segment ≡ is_open st.segment
unfolding seen
flush-open st = ap (λ r. r.depth) (seen-flush st)

-- The parts that the loop adds, as the resolver counts them.
pub seen-begin :
    (top : List TemplatePart) (segment : Option (List Part)) (text : Text)
    → is_open segment ≡ false
    → seen (begin_segment (record { top = top; segment = segment; text = text })) ≡ record {
      placeholders = (seen_of top segment).placeholders;
      depth = true;
      segments = (seen_of top segment).segments + 1;
    }
unfolding seen
seen-begin top none text h = seen_eq refl (omega arith)
seen-begin top (some ps) text h = cc

pub seen-end :
    (top : List TemplatePart) (segment : Option (List Part)) (text : Text)
    → is_open segment ≡ true
    → seen (end_segment (record { top = top; segment = segment; text = text })) ≡ record {
      placeholders = (seen_of top segment).placeholders;
      depth = false;
      segments = (seen_of top segment).segments;
    }
unfolding seen placeholders_of one_if_opt
seen-end top none text h = cc
seen-end top (some ps) text h =
    seen_eq
      (append-nil (placeholders_of (top ++ opt ps ∷ []))
        ∙ placeholders_of-behind top (opt ps) (append-nil (in_segment ps)))
      (rw (segments_of-behind top (opt ps)) (omega arith))

pub seen-push-ph :
    (path : Text) (top : List TemplatePart) (segment : Option (List Part)) (text : Text)
    → seen (push (ph path) (record { top = top; segment = segment; text = text }))
      ≡ add path (seen_of top segment)
unfolding seen push placeholders_of one_if_opt
seen-push-ph path top none text =
    seen_eq
      (append-nil (placeholders_of (top ++ part (ph path) ∷ []))
        ∙ placeholders_of-behind top (part (ph path)) refl
        ∙ ap (λ l. l ++ record { path = path; in_optional = false } ∷ [])
            (sym (append-nil (placeholders_of top))))
      (rw (segments_of-behind top (part (ph path))) (omega arith))
seen-push-ph path top (some ps) text =
    seen_eq
      (ap (λ l. placeholders_of top ++ l) (in_segment-append ps (ph path ∷ []))
        ∙ sym (append_assoc (placeholders_of top) (in_segment ps) _))
      refl
