-- ===== src/Safety/Validators/Accepted/SearchAds.antt =====
-- The responsive search ads that pass.
use gads_write_mcp.Base.{
  ℕ, suc, ◌≤◌, String, ◌≡◌, refl, ap, ◌∙◌, ◌≢◌, ◌↔◌, inl, inr, Bool, true, false, not, ◌&&◌, ◌||◌,
  Option, none, some, List, [], ◌∷◌, leb, length, is_empty, map, Bool-cases, leb→le, le→leb, eq_iff,
  str_eq, All,
}
use gads_write_mcp.Python.Value.{Value, truthy}
use gads_write_mcp.Python.Text.{Runtime, Url, one_of, is_empty_text, stripped_text}
use gads_write_mcp.Safety.Validators.{Field, named, item, Problem, no_host}
use gads_write_mcp.Safety.Validators.Text.{check_text, duplicates}
use gads_write_mcp.Safety.Validators.Accepted.{
  append-ok, ok-append, unless-ok, ok-unless, stop-ok, ok-stop,
}
use gads_write_mcp.Safety.Validators.Accepted.Texts.{
  not_empty, is_not_empty, IsTextWithin, check_text-ok, ok-check_text, keys, IsDistinct,
  duplicates-none,
}
use gads_write_mcp.Safety.Validators.Ads.{
  rsa_headline_max_chars, rsa_description_max_chars, rsa_path_max_chars, rsa_min_headlines,
  rsa_max_headlines, rsa_min_descriptions, rsa_max_descriptions, SearchAd, host_problems,
  url_problems, validate_final_url, each_item, validate_texts, validate_path, validate_rsa,
}

each_item-ok :
    (validate : Field → Value → List Problem) (name : String) (P : Value → Type 0)
    → ((f : Field) (v : Value) → validate f v ≡ [] → P v)
    → (i : ℕ) (vs : List Value) → each_item validate name i vs ≡ []
    → All P vs
unfolding each_item
each_item-ok validate name P good i [] h = tt
each_item-ok validate name P good i (v ∷ vs) h =
    let (first, rest) = append-ok _ _ h in
    (good (item name i) v first, each_item-ok validate name P good (suc i) vs rest)

ok-each_item :
    (validate : Field → Value → List Problem) (name : String) (P : Value → Type 0)
    → ((f : Field) (v : Value) → P v → validate f v ≡ [])
    → (i : ℕ) (vs : List Value) → All P vs
    → each_item validate name i vs ≡ []
unfolding each_item
ok-each_item validate name P good i [] h = refl
ok-each_item validate name P good i (v ∷ vs) (first, rest) =
    ok-append _ _ (good (item name i) v first) (ok-each_item validate name P good (suc i) vs rest)

and-true : (a b : Bool) → a && b ≡ true → (a ≡ true) × (b ≡ true)
and-true true b h = (refl, h)
and-true false b h = cc

-- A path may be left out, and the second only stands behind the first.
follows : (a b : Bool) → not a || b ≡ true → a ≡ true → b ≡ true
follows true b h e = h
follows false b h e = cc

may_follow : (a b : Bool) → (a ≡ true → b ≡ true) → not a || b ≡ true
may_follow true b h = h refl
may_follow false b h = refl

not-true-eq : (b : Bool) → not b ≡ true → b ≡ false
not-true-eq true h = cc
not-true-eq false h = refl

none-empty : {A : Type 0} (xs : List A) → is_empty xs ≡ true → xs ≡ []
none-empty [] h = refl
none-empty (x ∷ xs) h = cc

module _ ⦃py : Runtime⦄ where
  -- As many texts as are allowed, none too long, no two the same.
  abbrev pub AreTexts : (low high chars : ℕ) → List Value → Type 0
  AreTexts low high chars texts =
      (low ≤ length texts)
      × (length texts ≤ high)
      × All (IsTextWithin chars) texts
      × IsDistinct (keys texts)

  validate_texts-ok :
      (low high chars : ℕ) (name : String) (texts : List Value)
      → validate_texts low high chars name texts ≡ []
      → AreTexts low high chars texts
  unfolding validate_texts
  validate_texts-ok low high chars name texts h =
      let (front, last) = append-ok _ _ h in
      let (counts, each) = append-ok _ _ front in
      let (few, many) = append-ok _ _ counts in
      (
        leb→le _ _ (unless-ok (leb low (length texts)) _ _ few),
        leb→le _ _ (unless-ok (leb (length texts) high) _ _ many),
        each_item-ok (check_text chars) name (IsTextWithin chars) (check_text-ok chars) 0 texts
            each,
        (duplicates-none texts).0
            (none-empty (duplicates texts) (unless-ok (is_empty (duplicates texts)) _ _ last)),
      )

  ok-validate_texts :
      (low high chars : ℕ) (name : String) (texts : List Value)
      → AreTexts low high chars texts
      → validate_texts low high chars name texts ≡ []
  unfolding validate_texts
  ok-validate_texts low high chars name texts (few, many, each, distinct) =
      ok-append _ _
        (ok-append _ _
          (ok-append _ _ (ok-unless (leb low (length texts)) _ _ (le→leb _ _ few))
            (ok-unless (leb (length texts) high) _ _ (le→leb _ _ many)))
          (ok-each_item (check_text chars) name (IsTextWithin chars) (ok-check_text chars) 0 texts
            each))
        (ok-unless (is_empty (duplicates texts)) _ _
          (ap is_empty ((duplicates-none texts).1 distinct)))

  -- A link over https, without credentials, to one of the allowed hosts.
  abbrev pub IsAllowedUrl : List String → Value → Type 0
  IsAllowedUrl allowed_domains url =
      (parsed : Url) × (py.urlparse (stripped_text url) ≡ some parsed)
      × (parsed.scheme ≡ "https")
      × (parsed.username ≡ "")
      × (parsed.password ≡ "")
      × (py.lower parsed.hostname ≢ "")
      × (one_of (py.lower parsed.hostname) (map py.lower allowed_domains) ≡ true)

  url-ok :
      (domains : List String) (f : Field) (v : Value)
      → validate_final_url domains f v ≡ []
      → IsAllowedUrl domains v
  unfolding validate_final_url url_problems host_problems
  url-ok domains f v h = by_parse (py.urlparse (stripped_text v)) refl h
    where
      by_parse :
          (o : Option Url)
          → py.urlparse (stripped_text v) ≡ o
          → url_problems domains f (stripped_text v) o ≡ []
          → IsAllowedUrl domains v
      by_parse none e k = cc
      by_parse (some parsed) e k =
          let (front, host) = append-ok _ _ k in
          let (scheme, plain) = append-ok _ _ front in
          let (user, password) = and-true _ _ (
            unless-ok (is_empty_text parsed.username && is_empty_text parsed.password) _ _ plain) in
          let (named_host, listed) =
            stop-ok (is_empty_text (py.lower parsed.hostname)) _ _ _ host in
          (
            parsed,
            e,
            (eq_iff parsed.scheme "https").0 (unless-ok (str_eq parsed.scheme "https") _ _ scheme),
            (eq_iff parsed.username "").0 user,
            (eq_iff parsed.password "").0 password,
            not_empty (py.lower parsed.hostname) named_host,
            unless-ok (one_of (py.lower parsed.hostname) (map py.lower domains)) _ _ listed,
          )

  ok-url :
      (domains : List String) (f : Field) (v : Value)
      → IsAllowedUrl domains v
      → validate_final_url domains f v ≡ []
  unfolding validate_final_url url_problems host_problems
  ok-url domains f v (parsed, e, scheme, user, password, named_host, listed) =
      ap (url_problems domains f (stripped_text v)) e
      ∙ ok-append _ _
          (ok-append _ _
            (ok-unless (str_eq parsed.scheme "https") _ _ ((eq_iff parsed.scheme "https").1 scheme))
            (ok-unless (is_empty_text parsed.username && is_empty_text parsed.password) _ _
              (rw ((eq_iff parsed.username "").1 user) ((eq_iff parsed.password "").1 password))))
          (ok-stop (is_empty_text (py.lower parsed.hostname)) f (no_host (stripped_text v)) _
            (is_not_empty (py.lower parsed.hostname) named_host)
            (ok-unless (one_of (py.lower parsed.hostname) (map py.lower domains)) _ _ listed))

  abbrev pub IsPath : Value → Type 0
  IsPath v = truthy v ≡ true → IsTextWithin rsa_path_max_chars v

  IsPath-ok : (label : String) (v : Value) → validate_path label v ≡ [] → IsPath v
  unfolding validate_path
  IsPath-ok label v h given = check_text-ok rsa_path_max_chars (named label) v (rw given at h)

  ok-IsPath : (label : String) (v : Value) → IsPath v → validate_path label v ≡ []
  unfolding validate_path
  ok-IsPath label v good = elim (Bool-cases (truthy v)) [
    | inl given ↦ rw given (ok-check_text rsa_path_max_chars (named label) v (good given))
    | inr absent ↦ rw absent refl
  ]

  -- The structural limits of a responsive search ad, and the allowed links.
  pub record IsServable (domains : List String) (ad : SearchAd) : Type 0 where
    pub headlines : AreTexts rsa_min_headlines rsa_max_headlines rsa_headline_max_chars ad.headlines
    pub descriptions :
        AreTexts rsa_min_descriptions rsa_max_descriptions rsa_description_max_chars ad.descriptions
    pub first_path : IsPath ad.path1
    pub second_path : IsPath ad.path2
    pub in_order : truthy ad.path2 ≡ true → truthy ad.path1 ≡ true
    pub linked : is_empty ad.final_urls ≡ false
    pub links : All (IsAllowedUrl domains) ad.final_urls

  servable :
      (domains : List String) (ad : SearchAd) → validate_rsa domains ad ≡ [] → IsServable domains ad
  unfolding validate_rsa
  servable domains ad h =
      let (h6, urls) = append-ok _ _ h in
      let (h5, some_url) = append-ok _ _ h6 in
      let (h4, order) = append-ok _ _ h5 in
      let (h3, p2) = append-ok _ _ h4 in
      let (h2, p1) = append-ok _ _ h3 in
      let (heads, descs) = append-ok _ _ h2 in
      record {
        headlines = validate_texts-ok _ _ _ _ ad.headlines heads;
        descriptions = validate_texts-ok _ _ _ _ ad.descriptions descs;
        first_path = IsPath-ok "path1" ad.path1 p1;
        second_path = IsPath-ok "path2" ad.path2 p2;
        in_order =
            follows (truthy ad.path2) (truthy ad.path1)
              (unless-ok (not (truthy ad.path2) || truthy ad.path1) _ _ order);
        linked =
            not-true-eq (is_empty ad.final_urls)
              (unless-ok (not (is_empty ad.final_urls)) _ _ some_url);
        links =
            each_item-ok (validate_final_url domains) "final_urls" (IsAllowedUrl domains)
              (url-ok domains) 0 ad.final_urls urls;
      }

  acceptable :
      (domains : List String) (ad : SearchAd) → IsServable domains ad → validate_rsa domains ad ≡ []
  unfolding validate_rsa
  acceptable domains ad good =
      ok-append _ _
        (ok-append _ _
          (ok-append _ _
            (ok-append _ _
              (ok-append _ _
                (ok-append _ _ (ok-validate_texts _ _ _ "headlines" ad.headlines good.headlines)
                  (ok-validate_texts _ _ _ "descriptions" ad.descriptions good.descriptions))
                (ok-IsPath "path1" ad.path1 good.first_path))
              (ok-IsPath "path2" ad.path2 good.second_path))
            (ok-unless (not (truthy ad.path2) || truthy ad.path1) _ _
              (may_follow (truthy ad.path2) (truthy ad.path1) good.in_order)))
          (ok-unless (not (is_empty ad.final_urls)) _ _ (ap not good.linked)))
        (ok-each_item (validate_final_url domains) "final_urls" (IsAllowedUrl domains)
          (ok-url domains) 0 ad.final_urls good.links)

  -- An ad passes exactly if it has 3 to 15 headlines of width at most 30 and 2 to 4 descriptions of at
  -- most 90, none blank and no two the same, paths of at most 15 with no second one alone, and at
  -- least one link, each over https, without credentials and to an allowed host.
  pub validate_rsa-valid :
      (domains : List String) (ad : SearchAd)
      → (validate_rsa domains ad ≡ []) ↔ IsServable domains ad
  validate_rsa-valid domains ad = (servable domains ad, acceptable domains ad)
