-- ===== src/Core/Render/Stream.antt =====
-- `render_stream` and `normalize_network` of render.rs.
use xrayctl.Common.{
  String, ◌<>◌, Bool, true, false, not, ◌&&◌, ◌||◌, Option, none, some, List, [], ◌∷◌, ◌==◌, ◌⊎◌,
  is_some, to_ascii_lowercase, if◌then◌else◌,
}
use xrayctl.Core.Error.{validation, Result, ok, fail_if, ◌>>=◌, ◌>>◌}
use xrayctl.Core.Config.Validation.{one_of}
use xrayctl.Core.Domain.{Node, Transport, Security}
use xrayctl.Core.Json.{Value, Fields, str, obj, bool, end, insert, texts, optional, object}
use xrayctl.Core.Render.Mask.{render_finalmask}

unfoldable pub normalize_network : String → String
unfolding to_ascii_lowercase
normalize_network network =
    let lower = to_ascii_lowercase network in
    if lower == "tcp" || lower == "raw"
    then "tcp"
    else if lower == "websocket" || lower == "ws"
    then "ws"
    else if lower == "grpc"
    then "grpc"
    else if lower == "httpupgrade"
    then "httpupgrade"
    else if lower == "xhttp" || lower == "splithttp"
    then "xhttp"
    else if lower == "hysteria"
    then "hysteria"
    else network

abbrev pub methods : List String
methods = "tcp" ∷ "ws" ∷ "grpc" ∷ "httpupgrade" ∷ "xhttp" ∷ "hysteria" ∷ []

abbrev reality : Security → Value
reality s = obj (
    object (
      ("serverName", optional s.server_name)
      ∷ ("fingerprint", optional s.fingerprint)
      ∷ ("alpn", texts s.alpn)
      ∷ ("password", optional s.public_key)
      ∷ ("publicKey", optional s.public_key)
      ∷ ("shortId", optional s.short_id)
      ∷ ("spiderX", optional s.spider_x)
      ∷ []))

abbrev tls : Security → Value
tls s = obj (
    object (
      ("serverName", optional s.server_name)
      ∷ ("fingerprint", optional s.fingerprint)
      ∷ ("alpn", texts s.alpn)
      ∷ ("allowInsecure", bool s.allow_insecure)
      ∷ ("pinnedPeerCertSha256", optional s.pinned_peer_cert_sha256)
      ∷ []))

abbrev pub secured : Security → Fields → Fields
secured s stream =
    if s.kind == "reality"
    then insert "realitySettings" (reality s) stream
    else if s.kind == "tls"
    then insert "tlsSettings" (tls s) stream
    else stream

abbrev pub settings_key : String → Option String
settings_key method =
    if method == "ws"
    then some "wsSettings"
    else if method == "grpc"
    then some "grpcSettings"
    else if method == "httpupgrade"
    then some "httpupgradeSettings"
    else if method == "xhttp"
    then some "xhttpSettings"
    else none

abbrev pub with_settings : Transport → Option String → Fields → Fields
with_settings t none stream = stream
with_settings t (some key) stream =
    insert key
      (obj (
        object (
          ("path", optional t.path)
          ∷ ("host", optional t.host)
          ∷ ("serviceName", optional t.service_name)
          ∷ ("authority", optional t.authority)
          ∷ ("mode", optional t.mode)
          ∷ [])))
      stream

-- What is written below `request`, and the header with it.
abbrev request_path : Option String → Fields
request_path none = end
request_path (some path) = object (("path", texts (path ∷ [])) ∷ [])

abbrev request_host : Option String → Fields → Fields
request_host none request = request
request_host (some host) request =
    insert "headers" (obj (object (("Host", texts (host ∷ [])) ∷ []))) request

abbrev with_request : Bool → Fields → Fields → Fields
with_request false request header = header
with_request true request header = insert "request" (obj request) header

abbrev pub header : String → Transport → Value
header kind t = obj (
    with_request (kind == "http" && (is_some t.path || is_some t.host))
      (request_host t.host (request_path t.path)) (object (("type", str kind) ∷ [])))

abbrev pub with_header : Transport → String → Fields → Result Fields
with_header t kind stream =
    fail_if (not (one_of ("none" ∷ "http" ∷ []) kind))
      (validation ("unsupported RAW headerType: " <> kind))
    >> ok (insert "rawSettings" (obj (object (("header", header kind t) ∷ []))) stream)

abbrev pub with_raw : Transport → Option String → Fields → Result Fields
with_raw t none stream = ok stream
with_raw t (some kind) stream = with_header t (to_ascii_lowercase kind) stream

abbrev pub with_mask : Option Value → Fields → Fields
with_mask none stream = stream
with_mask (some mask) stream = insert "finalmask" mask stream

abbrev pub stream_base : Node → String → Fields
stream_base node method = with_settings node.transport (settings_key method) (
    secured node.security (
      object (
        ("method", str method)
        ∷ ("network", str method)
        ∷ ("security", str node.security.kind)
        ∷ [])))

module _ (read_json : String → String ⊎ Value) where
  unfoldable pub render_stream : Node → Result Fields
  unfolding normalize_network insert to_ascii_lowercase render_finalmask
  render_stream node =
      let method = normalize_network node.transport.kind in
      let raw = with_raw node.transport node.transport.header_type (stream_base node method) in
      fail_if (not (one_of methods method))
        (validation ("unsupported Xray transport: " <> node.transport.kind))
      >> ((if method == "tcp" then raw else ok (stream_base node method)) >>= λ stream.
          (fail_if (is_some node.transport.seed)
              (validation "legacy seed cannot be mapped to the current Xray transport schema")
            >> (render_finalmask read_json node >>= λ mask. ok (with_mask mask stream))))
