-- ===== src/Core/Subscription.antt =====
-- crates/xray-manager-core/src/subscription.rs. The Base64 decoder is
-- an argument, and so is the parser of a node's URI. A response that is not UTF-8 has no text.
pub mod Accounted
use xrayctl.Common.{
  ℕ, suc, ◌+◌, String, ◌<>◌, Bool, true, false, ◌||◌, Option, none, some, List, [], ◌∷◌, ◌++◌, any,
  show, is_empty, is_empty_text, trim, trim_start, starts_with_text, contains_text, replace_text,
  to_ascii_lowercase, lines, if◌then◌else◌,
}
use xrayctl.Core.Error.{
  ManagerError, invalid_subscription, to_text, Result, ok, err, ◌>>=◌, ◌>>◌, fail_if, ok_or,
}
use xrayctl.Core.Domain.{Node}

-- What `decode_flexible_base64` and then `String::from_utf8` make of a text.
pub data Decoding : Type 0 where
  no_base64 no_utf8 : Decoding
  plain : String → Decoding

abbrev pub text_of : Decoding → Result String
text_of no_base64 = err (invalid_subscription "invalid Base64 response")
text_of no_utf8 = err (invalid_subscription "decoded response is not UTF-8")
text_of (plain text) = ok text

pub record SubscriptionParse : Type 0 where
  pub nodes : List Node
  pub warnings : List String

abbrev pub schemes : List String
schemes = "vless://" ∷ "vmess://" ∷ "trojan://" ∷ "ss://" ∷ "hysteria2://" ∷ "hy2://" ∷ []

unfoldable pub contains_supported_uri : String → Bool
unfolding contains_text
contains_supported_uri text = any (λ scheme. contains_text scheme text) schemes

unfoldable pub looks_like_html : String → Bool
unfolding trim_start to_ascii_lowercase starts_with_text
looks_like_html text =
    let prefix = to_ascii_lowercase (trim_start text) in
    starts_with_text "<!doctype html" prefix
    || starts_with_text "<html" prefix
    || starts_with_text "<?xml" prefix

unfoldable pub decode_minimal_html_entities : String → String
unfolding replace_text
decode_minimal_html_entities value = replace_text "&#39;" "'" (
    replace_text "&quot;" "\""
      (replace_text "&gt;" ">" (replace_text "&lt;" "<" (replace_text "&amp;" "&" value))))

abbrev pub is_skipped : String → Bool
is_skipped line = is_empty_text line || starts_with_text "#" line

abbrev pub take_line : ℕ → Result Node → SubscriptionParse → SubscriptionParse
take_line index (ok node) rest = record rest { nodes = node ∷ rest.nodes }
take_line index (err e) rest = record rest {
  warnings = ("line " <> (show (index + 1) <> (": " <> to_text e))) ∷ rest.warnings;
}

module _ (decode : String → Decoding) (parse_uri : String → String → Result Node) where
  -- The loop over the lines, counted from 0.
  unfoldable pub parse_lines : String → ℕ → List String → SubscriptionParse
  unfolding trim
  parse_lines subscription index [] = record { nodes = []; warnings = [] }
  parse_lines subscription index (line ∷ more) =
      let rest = parse_lines subscription (suc index) more in
      let text = trim line in
      if is_skipped text then rest else take_line index (parse_uri text subscription) rest

  unfoldable pub decoded : String → Result String
  unfolding contains_supported_uri
  decoded text = if contains_supported_uri text then ok text else text_of (decode text)

  abbrev pub unless_empty : SubscriptionParse → Result SubscriptionParse
  unless_empty p =
      fail_if (is_empty p.nodes) (invalid_subscription "subscription contains no supported nodes")
      >> ok p

  unfoldable pub parse_subscription : String → String → Result SubscriptionParse
  unfolding looks_like_html decoded decode_minimal_html_entities parse_lines lines
  parse_subscription text subscription =
      fail_if (looks_like_html text) (invalid_subscription "response looks like an HTML error page")
      >> (decoded text >>= λ content.
          unless_empty (parse_lines subscription 0 (lines (decode_minimal_html_entities content))))
