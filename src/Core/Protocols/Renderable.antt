-- ===== src/Core/Protocols/Renderable.antt =====
-- The VLESS nodes that have no warning.
use xrayctl.Common.{
  String, true, false, not, Option, none, some, [], ◌==◌, ◌≡◌, ◌⊎◌, refl, sym, ◌∙◌, ap, arith,
  is_some, map_or, to_ascii_lowercase,
}
use xrayctl.Common.Assoc
use xrayctl.Core.Error.{ok, fail_if, ok_or, is_ok, Yields, >>=-Yields, yielded}
use xrayctl.Core.Config.Validation.{one_of}
use xrayctl.Core.Domain.{Node, vless}
use xrayctl.Core.Render.Mask.{extra}
use xrayctl.Core.Render.Stream.{normalize_network, methods}
use xrayctl.Core.Render.Outbound.{render_proxy_outbound}
use xrayctl.Core.Render.Representable.{has_header, has_stream, is_representable, outbound_of-is_ok}
use xrayctl.Core.Protocols.Shared.{
  Libraries, Entries, node_from_url, query_map, value_of, parsed_as, unknown, raised, value_or,
}
use xrayctl.Core.Protocols.Vless.{
  known, kinds, is_supported_fragment, is_json_object, is_plain_header, checks, warnings_of,
  parse_vless,
}
use xrayctl.Core.Protocols.Accepted.{
  normalize_network-known, append-empty, raised-empty, render_finalmask-is_ok, both, only_if,
}

-- What a query without a warning says.
module _ (l : Libraries) where
  record IsClean (query : Entries) : Type 0 where
    kind : one_of kinds (to_ascii_lowercase (value_or "tcp" (value_of "type" query))) ≡ true
    header : map_or false (λ kind. not (is_plain_header kind)) (value_of "headerType" query) ≡ false
    seed : is_some (value_of "seed" query) ≡ false
    fragment :
        map_or false (λ value. not (is_supported_fragment value)) (value_of "fragment" query)
        ≡ false
    mask :
        map_or false (λ mask. not (is_json_object (l.read_json mask))) (value_of "fm" query) ≡ false

  warnings_of-IsClean : (query : Entries) → warnings_of l query ≡ [] → IsClean query
  warnings_of-IsClean query h =
      let tests = checks l query in
      let (_, empty) =
        append-empty (unknown "unknown query parameter: " known query) (raised tests) h in
      let (kind, after_kind) = raised-empty tests empty in
      let (header, after_header) = after_kind in
      let (seed, after_seed) = after_header in
      let (fragment, after_fragment) = after_seed in
      record {
        kind = ground (arith, kind);
        header = header;
        seed = seed;
        fragment = fragment;
        mask = after_fragment.0;
      }

  -- A mask and a fragment are not both given.
  abbrev pub OneMask : Node → Type 0
  OneMask n = (extra "fm" n ≡ none) ⊎ (extra "fragment" n ≡ none)

  record Reads (query : Entries) (n : Node) : Type 0 where
    protocol : n.protocol ≡ vless
    user : is_some n.credentials.user ≡ true
    warnings : n.warnings ≡ warnings_of l query
    entries : n.extra ≡ query
    kind : n.transport.kind ≡ value_or "tcp" (value_of "type" query)
    header : n.transport.header_type ≡ value_of "headerType" query
    seed : n.transport.seed ≡ value_of "seed" query

  extra-value_of :
      (key : String) (query : Entries) (n : Node)
      → n.extra ≡ query
      → extra key n ≡ value_of key query
  unfolding extra value_of
  extra-value_of key query n e = ap (Assoc.get (λ a b. a == b) key) e

  parse_vless-Reads :
      (uri sub : String) → Yields (λ n. (query : Entries) × Reads query n) (parse_vless l uri sub)
  unfolding parse_vless node_from_url
  parse_vless-Reads uri sub = >>=-Yields (parsed_as "" (l.parse_url uri)) _ (λ url.
      >>=-Yields (fail_if (not (l.is_uuid url.username)) _) _ (λ _.
        >>=-Yields (ok_or _ _) _ (λ server. >>=-Yields (ok_or url.port _) _ (λ port. record {
          holds = (
            query_map url,
            record {
              protocol = refl;
              user = refl;
              warnings = refl;
              entries = refl;
              kind = refl;
              header = refl;
              seed = refl;
            },
          );
        }))))

  has_header-plain :
      (o : Option String)
      → map_or false (λ kind. not (is_plain_header kind)) o ≡ false
      → has_header o ≡ true
  has_header-plain none h = refl
  has_header-plain (some kind) h = ground (arith, h)

  has_stream-clean :
      (query : Entries) (n : Node)
      → Reads query n
      → IsClean query
      → OneMask n
      → has_stream l.read_json n ≡ true
  has_stream-clean query n r c one =
      let fm = extra-value_of "fm" query n r.entries in
      let fragment = extra-value_of "fragment" query n r.entries in
      both
        (ap (λ k. one_of methods (normalize_network k)) r.kind ∙ normalize_network-known _ c.kind)
        (both
          (only_if (normalize_network n.transport.kind == "tcp")
            (ap has_header r.header ∙ has_header-plain _ c.header))
          (both (ap (λ o. not (is_some o)) r.seed ∙ ap not c.seed) (
            render_finalmask-is_ok l.read_json n r.protocol one
              (ap (map_or false (λ value. not (is_supported_fragment value))) fragment ∙ c.fragment)
              (ap (map_or false (λ mask. not (is_json_object (l.read_json mask)))) fm ∙ c.mask))))

  -- A VLESS URI that gives a node without a warning gives one that can be rendered as the proxy, if
  -- it does not have both a mask and a fragment.
  pub parse_vless-renders :
      (uri sub : String) {n : Node}
      → parse_vless l uri sub ≡ ok n
      → n.warnings ≡ []
      → OneMask n
      → is_ok (render_proxy_outbound l.read_json n) ≡ true
  unfolding render_proxy_outbound
  parse_vless-renders uri sub {n} q clean one =
      let (query, r) = yielded (parse_vless-Reads uri sub) q in
      let c = warnings_of-IsClean query (sym r.warnings ∙ clean) in
      outbound_of-is_ok l.read_json n.protocol n
      ∙ ap (λ p. is_representable l.read_json p n) r.protocol
      ∙ both r.user (has_stream-clean query n r c one)
