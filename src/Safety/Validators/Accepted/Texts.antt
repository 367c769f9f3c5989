-- ===== src/Safety/Validators/Accepted/Texts.antt =====
-- The texts that pass: ids, keywords, texts of an ad, and lists without a repetition.
use gads_write_mcp.Base.{
  ℕ, ◌≤◌, String, ◌≡◌, refl, ap, ◌∙◌, All, ◌≢◌, ◌↔◌, inl, inr, Bool, true, false, not, ◌||◌, List,
  [], ◌∷◌, leb, ◌==◌, arith, Bool-cases, leb→le, le→leb, eq_iff, str_eq,
}
use gads_write_mcp.Python.Value.{Value, str}
use gads_write_mcp.Python.Text.{
  Runtime, strip, any_char, one_of, char_count, is_empty_text, stripped_text, is_digits,
}
use gads_write_mcp.Safety.Validators.{
  Field, has_dashes, no_customer_id, must_not_be_empty, ui_syntax,
}
use gads_write_mcp.Safety.Validators.Accepted.{unless-ok, ok-unless, stop-ok, ok-stop}
use gads_write_mcp.Safety.Validators.Text.{
  is_dash, starts_with, ends_with, opens_match_type, closes_match_type, keyword_max_chars,
  ads_char_length, within, validate_customer_id, keyword_problems, validate_keyword_text,
  text_problems, check_text, duplicates_from, duplicates,
}

pub not_empty : (s : String) → is_empty_text s ≡ false → s ≢ ""
not_empty s h = ground (arith, eq_iff s "", h)

pub is_not_empty : (s : String) → s ≢ "" → is_empty_text s ≡ false
is_not_empty s h = elim (Bool-cases (is_empty_text s)) [
  | inl empty ↦ absurd (h ((eq_iff s "").0 empty))
  | inr full ↦ full
]

or-false : (a b : Bool) → a || b ≡ false → (a ≡ false) × (b ≡ false)
or-false false b h = (refl, h)
or-false true b h = cc

not-true : (b : Bool) → not b ≡ false → b ≡ true
not-true true h = refl
not-true false h = cc

-- No two entries are the same text.
abbrev pub IsDistinct : List String → Type 0
IsDistinct [] = Unit
IsDistinct (k ∷ ks) = (one_of k ks ≡ false) × IsDistinct ks

-- No key is among those that went before it.
abbrev AllFresh : List String → List String → Type 0
AllFresh seen [] = Unit
AllFresh seen (k ∷ ks) = (one_of k seen ≡ false) × AllFresh (k ∷ seen) ks

str_eq_comm : (s t : String) → str_eq s t ≡ false → str_eq t s ≡ false
str_eq_comm s t h = elim (Bool-cases (str_eq t s)) [
  | inl same ↦ ground (arith, eq_iff s t, eq_iff t s, same, h)
  | inr other ↦ other
]

-- The keys before `k` do not occur after it, nor does `k` occur among them.
push :
    (k : String) (ks seen : List String)
    → one_of k seen ≡ false
    → All (λ s. one_of s ks ≡ false) seen
    → All (λ s. one_of s (k ∷ ks) ≡ false) seen
unfolding one_of
push k ks [] new apart = tt
push k ks (s ∷ seen) new (first, apart) =
    let (other, rest) = or-false (str_eq k s) (one_of k seen) new in
    (rw (str_eq_comm k s other) first, push k ks seen rest apart)

pop :
    (k : String) (ks seen : List String)
    → All (λ s. one_of s (k ∷ ks) ≡ false) seen
    → (one_of k seen ≡ false) × All (λ s. one_of s ks ≡ false) seen
unfolding one_of
pop k ks [] apart = (refl, tt)
pop k ks (s ∷ seen) (first, apart) =
    let (other, rest) = or-false (str_eq s k) (one_of s ks) first in
    let (new, later) = pop k ks seen apart in (rw (str_eq_comm s k other) new, (rest, later))

none_left : (l : List String) → All (λ s. one_of s [] ≡ false) l
unfolding one_of
none_left [] = tt
none_left (s ∷ l) = (refl, none_left l)

AllFresh-IsDistinct :
    (seen ks : List String) → AllFresh seen ks → IsDistinct ks × All (λ s. one_of s ks ≡ false) seen
unfolding one_of
AllFresh-IsDistinct seen [] h = (tt, none_left seen)
AllFresh-IsDistinct seen (k ∷ ks) (new, h) =
    let (distinct, (here, apart)) = AllFresh-IsDistinct (k ∷ seen) ks h in
    ((here, distinct), push k ks seen new apart)

IsDistinct-AllFresh :
    (seen ks : List String) → IsDistinct ks → All (λ s. one_of s ks ≡ false) seen → AllFresh seen ks
IsDistinct-AllFresh seen [] distinct apart = tt
IsDistinct-AllFresh seen (k ∷ ks) (here, distinct) apart =
    let (new, later) = pop k ks seen apart in
    (new, IsDistinct-AllFresh (k ∷ seen) ks distinct (here, later))

module _ ⦃py : Runtime⦄ where
  within-ok :
      (limit : ℕ) (f : Field) (s : String) → within limit f s ≡ [] → ads_char_length s ≤ limit
  unfolding within
  within-ok limit f s h = leb→le _ _ (unless-ok (leb (ads_char_length s) limit) _ _ h)

  ok-within :
      (limit : ℕ) (f : Field) (s : String) → ads_char_length s ≤ limit → within limit f s ≡ []
  unfolding within
  ok-within limit f s h = ok-unless (leb (ads_char_length s) limit) _ _ (le→leb _ _ h)

  -- A text that has something in it, and is not too long as Google counts.
  abbrev pub IsTextWithin : ℕ → Value → Type 0
  IsTextWithin limit v =
      (text : String) × (v ≡ str text) × (strip text ≢ "") × (ads_char_length (strip text) ≤ limit)

  pub check_text-ok :
      (limit : ℕ) (f : Field) (v : Value) → check_text limit f v ≡ [] → IsTextWithin limit v
  unfolding check_text text_problems
  check_text-ok limit f (str text) h =
      let (full, short) = stop-ok (is_empty_text (strip text)) _ _ _ h in
      (text, refl, not_empty (strip text) full, within-ok limit f (strip text) short)
  check_text-ok limit f _ h = cc

  pub ok-check_text :
      (limit : ℕ) (f : Field) (v : Value) → IsTextWithin limit v → check_text limit f v ≡ []
  unfolding check_text text_problems
  ok-check_text limit f v (text, e, full, short) =
      ap (check_text limit f) e
      ∙ ok-stop (is_empty_text (strip text)) f must_not_be_empty _ (is_not_empty (strip text) full)
          (ok-within limit f (strip text) short)

  -- A keyword text passes exactly if it is a text, not blank, without match-type punctuation at
  -- either end and at most 80 wide.
  pub validate_keyword_text-valid :
      (f : Field) (v : Value)
      → (validate_keyword_text f v ≡ []) ↔ (
          (text : String) × (v ≡ str text)
          × (strip text ≢ "")
          × (starts_with opens_match_type (strip text) ≡ false)
          × (ends_with closes_match_type (strip text) ≡ false)
          × (ads_char_length (strip text) ≤ keyword_max_chars))
  unfolding validate_keyword_text keyword_problems
  validate_keyword_text-valid f v = (there v, back)
    where
      there :
          (w : Value)
          → validate_keyword_text f w ≡ []
          → (text : String) × (w ≡ str text)
            × (strip text ≢ "")
            × (starts_with opens_match_type (strip text) ≡ false)
            × (ends_with closes_match_type (strip text) ≡ false)
            × (ads_char_length (strip text) ≤ keyword_max_chars)
      there (str text) h =
          let (full, rest) = stop-ok (is_empty_text (strip text)) _ _ _ h in
          let (bare, short) =
            stop-ok
              (starts_with opens_match_type (strip text)
                || ends_with closes_match_type (strip text))
              _ _ _ rest in
          let (opened, closed) = or-false _ _ bare in
          (
            text,
            refl,
            not_empty (strip text) full,
            opened,
            closed,
            within-ok keyword_max_chars f (strip text) short,
          )
      there _ h = cc

      back :
          ((text : String) × (v ≡ str text)
            × (strip text ≢ "")
            × (starts_with opens_match_type (strip text) ≡ false)
            × (ends_with closes_match_type (strip text) ≡ false)
            × (ads_char_length (strip text) ≤ keyword_max_chars))
          → validate_keyword_text f v ≡ []
      back (text, e, full, opened, closed, short) =
          ap (validate_keyword_text f) e
          ∙ ok-stop (is_empty_text (strip text)) f must_not_be_empty _
              (is_not_empty (strip text) full)
              (ok-stop
                (starts_with opens_match_type (strip text)
                  || ends_with closes_match_type (strip text))
                f (ui_syntax (strip text)) _ (rw (opened, closed) refl)
                (ok-within keyword_max_chars f (strip text) short))

  -- A customer id passes exactly if it has no dash and consists of ten digits.
  pub validate_customer_id-valid :
      (f : Field) (v : Value)
      → (validate_customer_id f v ≡ []) ↔ (
          (any_char is_dash (stripped_text v) ≡ false)
          × (is_digits (stripped_text v) ≡ true)
          × (char_count (stripped_text v) ≡ 10))
  unfolding validate_customer_id
  validate_customer_id-valid f v =
      let text = stripped_text v in
      (
        λ h.
            let (plain, rest) = stop-ok (any_char is_dash text) _ _ _ h in
            let (ten, _) =
              stop-ok (not (is_digits text) || not (char_count text == 10)) _ _ _ rest in
            let (digits, count) = or-false _ _ ten in
            (plain, not-true _ digits, ground (arith, not-true _ count)),
        λ (plain, digits, count). ok-stop (any_char is_dash text) f (has_dashes text) _ plain (
            ok-stop (not (is_digits text) || not (char_count text == 10)) f (no_customer_id text) []
              (rw (digits, count) refl) refl),
      )

  -- The keys under which two texts are the same: stripped, and case folded.
  unfoldable pub keys : List Value → List String
  unfolding strip
  keys [] = []
  keys (str text ∷ vs) = py.casefold (strip text) ∷ keys vs
  keys (_ ∷ vs) = keys vs

  duplicates-fresh :
      (seen : List String) (vs : List Value)
      → duplicates_from seen vs ≡ []
      → AllFresh seen (keys vs)
  unfolding duplicates_from keys
  duplicates-fresh seen [] h = tt
  duplicates-fresh seen (str text ∷ vs) h =
      elim (Bool-cases (one_of (py.casefold (strip text)) seen)) [
        | inl old ↦ cc (rw old at h)
        | inr new ↦ (new, duplicates-fresh (py.casefold (strip text) ∷ seen) vs (rw new at h))
      ]
  duplicates-fresh seen (_ ∷ vs) h = duplicates-fresh seen vs h

  fresh-duplicates :
      (seen : List String) (vs : List Value)
      → AllFresh seen (keys vs)
      → duplicates_from seen vs ≡ []
  unfolding duplicates_from keys
  fresh-duplicates seen [] h = refl
  fresh-duplicates seen (str text ∷ vs) (new, h) =
      rw new (fresh-duplicates (py.casefold (strip text) ∷ seen) vs h)
  fresh-duplicates seen (_ ∷ vs) h = fresh-duplicates seen vs h

  -- No duplicates are found exactly if no two texts of the list are the same, up to case and blanks.
  pub duplicates-none : (vs : List Value) → (duplicates vs ≡ []) ↔ IsDistinct (keys vs)
  unfolding duplicates
  duplicates-none vs = (
    λ h.
        let (distinct, _) = AllFresh-IsDistinct [] (keys vs) (duplicates-fresh [] vs h) in distinct,
    λ distinct. fresh-duplicates [] vs (IsDistinct-AllFresh [] (keys vs) distinct tt),
  )
