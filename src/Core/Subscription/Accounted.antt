-- ===== src/Core/Subscription/Accounted.antt =====
-- The lines of a subscription in what is made of them.
use xrayctl.Common.{
  ℕ, suc, ◌+◌, String, ◌<>◌, Bool, true, false, ◌||◌, List, [], ◌∷◌, ◌≡◌, ◌≢◌, ◌⊎◌, refl, subst,
  trim, trim_start, lines, show, any, is_empty, is_empty_text, starts_with_text, contains_text,
  replace_text, to_ascii_lowercase, All, Bool-cases, inl, inr,
}
use xrayctl.Core.Error.{ManagerError, to_text, Result, ok, err, fail_if, ◌>>=◌, Yields, >>=-Yields}
use xrayctl.Core.Domain.{Node}
use xrayctl.Core.Subscription.{
  Decoding, plain, no_base64, no_utf8, text_of, SubscriptionParse, contains_supported_uri,
  looks_like_html, decode_minimal_html_entities, is_skipped, take_line, parse_lines, decoded,
  unless_empty, parse_subscription,
}

-- A response that begins, after white space, like a page of HTML or a document of XML.
abbrev pub is_page : String → Bool
is_page text =
    any (λ beginning. starts_with_text beginning (to_ascii_lowercase (trim_start text)))
      ("<!doctype html" ∷ "<html" ∷ "<?xml" ∷ [])

-- A response with one of the schemes is not encoded.
abbrev pub is_plain : String → Bool
is_plain text =
    any (λ scheme. contains_text scheme text)
      ("vless://" ∷ "vmess://" ∷ "trojan://" ∷ "ss://" ∷ "hysteria2://" ∷ "hy2://" ∷ [])

abbrev pub Labelled : String → Node → Type 0
Labelled subscription n = n.subscription ≡ subscription

take_line-Labelled :
    (sub : String) (i : ℕ) (r : Result Node) (p : SubscriptionParse)
    → ((n : Node) → r ≡ ok n → Labelled sub n)
    → All (Labelled sub) p.nodes
    → All (Labelled sub) (take_line i r p).nodes
take_line-Labelled sub i (ok n) p h a = (h n refl, a)
take_line-Labelled sub i (err e) p h a = a

or_last : (a b c : Bool) → a || b || c ≡ a || (b || (c || false))
or_last true b c = refl
or_last false true c = refl
or_last false false true = refl
or_last false false false = refl

looks_like_html-is_page : (text : String) → looks_like_html text ≡ is_page text
unfolding looks_like_html
looks_like_html-is_page text =
    let start : String = to_ascii_lowercase (trim_start text) in
    or_last (starts_with_text "<!doctype html" start) (starts_with_text "<html" start)
      (starts_with_text "<?xml" start)

module _ (decode : String → Decoding) (parse_uri : String → String → Result Node) where
  -- The nodes and the warnings of the lines from a number on: a line that is blank, or begins with
  -- `#` after white space, gives nothing; any other gives the node that it is, or a warning with its
  -- number, counted from 1.
  pub data Reads (sub : String) : ℕ → List String → List Node → List String → Type 0 where
    ended : (i : ℕ) → Reads sub i [] [] []
    blank :
        (i : ℕ) (line : String) (more : List String) (ns : List Node) (ws : List String)
        → is_empty_text (trim line) ≡ true
        → Reads sub (suc i) more ns ws
        → Reads sub i (line ∷ more) ns ws
    comment :
        (i : ℕ) (line : String) (more : List String) (ns : List Node) (ws : List String)
        → starts_with_text "#" (trim line) ≡ true
        → Reads sub (suc i) more ns ws
        → Reads sub i (line ∷ more) ns ws
    entry :
        (i : ℕ) (line : String) (more : List String) (n : Node) (ns : List Node) (ws : List String)
        → is_empty_text (trim line) ≡ false
        → starts_with_text "#" (trim line) ≡ false
        → parse_uri (trim line) sub ≡ ok n
        → Reads sub (suc i) more ns ws
        → Reads sub i (line ∷ more) (n ∷ ns) ws
    refused :
        (i : ℕ) (line : String) (more : List String) (e : ManagerError) (ns : List Node)
        (ws : List String)
        → is_empty_text (trim line) ≡ false
        → starts_with_text "#" (trim line) ≡ false
        → parse_uri (trim line) sub ≡ err e
        → Reads sub (suc i) more ns ws
        → Reads sub i (line ∷ more) ns (("line " <> (show (i + 1) <> (": " <> to_text e))) ∷ ws)

  taken :
      (sub : String) (i : ℕ) (line : String) (more : List String) (p : SubscriptionParse)
      (r : Result Node)
      → parse_uri (trim line) sub ≡ r
      → is_empty_text (trim line) ≡ false
      → starts_with_text "#" (trim line) ≡ false
      → Reads sub (suc i) more p.nodes p.warnings
      → Reads sub i (line ∷ more) (take_line i r p).nodes (take_line i r p).warnings
  taken sub i line more p (ok n) q e f h = entry i line more n p.nodes p.warnings e f q h
  taken sub i line more p (err x) q e f h = refused i line more x p.nodes p.warnings e f q h

  parse_lines-Reads :
      (sub : String) (i : ℕ) (ls : List String)
      → let p = parse_lines decode parse_uri sub i ls in Reads sub i ls p.nodes p.warnings
  unfolding parse_lines
  parse_lines-Reads sub i [] = ended i
  parse_lines-Reads sub i (line ∷ more) = elim (Bool-cases (is_empty_text (trim line))) [
    | inl t ↦ simp (t) (blank i line more _ _ t (parse_lines-Reads sub (suc i) more))
    | inr f ↦ elim (Bool-cases (starts_with_text "#" (trim line))) [
      | inl t ↦ simp (f, t) (comment i line more _ _ t (parse_lines-Reads sub (suc i) more))
      | inr g ↦
          simp (f, g)
            (taken sub i line more _ (parse_uri (trim line) sub) refl f g
              (parse_lines-Reads sub (suc i) more))
    ]
  ]

  parse_lines-Labelled :
      (sub : String) (i : ℕ) (ls : List String)
      → ((uri : String) (n : Node) → parse_uri uri sub ≡ ok n → Labelled sub n)
      → All (Labelled sub) (parse_lines decode parse_uri sub i ls).nodes
  unfolding parse_lines
  parse_lines-Labelled sub i [] h = tt
  parse_lines-Labelled sub i (line ∷ more) h = elim (Bool-cases (is_skipped (trim line))) [
    | inl t ↦ simp (t) (parse_lines-Labelled sub (suc i) more h)
    | inr f ↦ simp (f) (
        take_line-Labelled sub i (parse_uri (trim line) sub) _ (h (trim line))
          (parse_lines-Labelled sub (suc i) more h))
  ]

  -- What a response says: its text if it has a scheme, and otherwise what Base64 makes of it.
  abbrev pub Says : String → String → Type 0
  Says text content =
      ((is_plain text ≡ true) × (content ≡ text))
      ⊎ ((is_plain text ≡ false) × (decode text ≡ plain content))

  -- The lines of it, where the five entities of HTML stand for their characters.
  abbrev pub lines_of : String → List String
  lines_of content = lines (
      replace_text "&#39;" "'" (
        replace_text "&quot;" "\""
          (replace_text "&gt;" ">" (replace_text "&lt;" "<" (replace_text "&amp;" "&" content)))))

  abbrev pub IsUndecodable : String → Type 0
  IsUndecodable text =
      (is_plain text ≡ false) × ((decode text ≡ no_base64) ⊎ (decode text ≡ no_utf8))

  -- What becomes of a response.
  abbrev pub Accounts : String → String → Result SubscriptionParse → Type 0
  Accounts text sub (ok p) =
      (is_page text ≡ false)
      × ((content : String) × Says text content × Reads sub 0 (lines_of content) p.nodes p.warnings)
      × (p.nodes ≢ [])
  Accounts text sub (err e) =
      (is_page text ≡ true)
      ⊎ (IsUndecodable text
          ⊎ ((content : String) × Says text content
              × ((ws : List String) × Reads sub 0 (lines_of content) [] ws)))

  by_nodes :
      (text sub content : String) (p : SubscriptionParse) (nodes : List Node)
      → p.nodes ≡ nodes
      → is_page text ≡ false
      → Says text content
      → Reads sub 0 (lines_of content) p.nodes p.warnings
      → Accounts text sub (unless_empty decode parse_uri p)
  by_nodes text sub content p [] e f says reads = simp (e) (
      inr (
        inr (
          content,
          says,
          (p.warnings, subst (λ ns. Reads sub 0 (lines_of content) ns p.warnings) e reads),
        )))
  by_nodes text sub content p (n ∷ ns) e f says reads = simp (e) (
    f,
    (content, says, subst (λ ms. Reads sub 0 (lines_of content) ms p.warnings) e reads),
    λ r. cc,
  )

  by_content :
      (text sub content : String)
      → is_page text ≡ false
      → Says text content
      → Accounts text sub
          (unless_empty decode parse_uri (parse_lines decode parse_uri sub 0 (lines_of content)))
  by_content text sub content f says =
      by_nodes text sub content _ _ refl f says (parse_lines-Reads sub 0 (lines_of content))

  by_decoding :
      (text sub : String) (d : Decoding)
      → decode text ≡ d
      → is_page text ≡ false
      → is_plain text ≡ false
      → Accounts text sub (
          text_of d >>= λ content.
          unless_empty decode parse_uri (parse_lines decode parse_uri sub 0 (lines_of content)))
  by_decoding text sub no_base64 q f g = inr (inl (g, inl q))
  by_decoding text sub no_utf8 q f g = inr (inl (g, inr q))
  by_decoding text sub (plain content) q f g = by_content text sub content f (inr (g, q))

  by_text :
      (text sub : String)
      → is_page text ≡ false
      → Accounts text sub (
          decoded decode parse_uri text >>= λ content.
          unless_empty decode parse_uri (parse_lines decode parse_uri sub 0 (lines_of content)))
  unfolding decoded contains_supported_uri
  by_text text sub f = elim (Bool-cases (is_plain text)) [
    | inl t ↦ simp (t) (by_content text sub text f (inl (t, refl)))
    | inr g ↦ simp (g) (by_decoding text sub (decode text) refl f g)
  ]

  -- A response is refused exactly if it begins like a page of HTML or XML, or has none of the schemes
  -- and is not Base64 of a text in UTF-8, or has no line that is a node. Otherwise its lines are read
  -- in their order: one that is blank or a comment gives nothing, any other its node or a warning
  -- with its number.
  pub parse_subscription-Accounts :
      (text sub : String) → Accounts text sub (parse_subscription decode parse_uri text sub)
  unfolding parse_subscription decode_minimal_html_entities
  parse_subscription-Accounts text sub = elim (Bool-cases (is_page text)) [
    | inl t ↦ simp (looks_like_html-is_page, t) (inl refl)
    | inr f ↦ simp (looks_like_html-is_page, f) (by_text text sub f)
  ]

  unless_empty-Labelled :
      (sub : String) (p : SubscriptionParse)
      → All (Labelled sub) p.nodes
      → Yields (λ p. All (Labelled sub) p.nodes) (unless_empty decode parse_uri p)
  unless_empty-Labelled sub p a =
      >>=-Yields (fail_if (is_empty p.nodes) _) _ (λ _. record { holds = a })

  pub parse_subscription-Labelled :
      (text sub : String)
      → ((uri : String) (n : Node) → parse_uri uri sub ≡ ok n → Labelled sub n)
      → Yields (λ p. All (Labelled sub) p.nodes) (parse_subscription decode parse_uri text sub)
  unfolding parse_subscription
  parse_subscription-Labelled text sub h = >>=-Yields (fail_if (looks_like_html text) _) _ (λ _.
      >>=-Yields (decoded decode parse_uri text) _ (λ content.
        unless_empty-Labelled sub _
          (parse_lines-Labelled sub 0 (lines (decode_minimal_html_entities content)) h)))
