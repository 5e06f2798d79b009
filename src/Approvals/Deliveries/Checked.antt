-- ===== src/Approvals/Deliveries/Checked.antt =====
-- Where the request for a webhook goes, how it is signed, and what its client sends after it.
use open_clause.Base.{
  ℕ, ◌+◌, ◌*◌, ◌<◌, ◌≡◌, ◌≢◌, ◌⊎◌, inl, inr, refl, Result-cases, Bool, false, ◌||◌, Option, none,
  some, List, [], ◌∷◌, ◌++◌, ◌∙◌, ◌≤◌, length, Text, text, text_dec, is_empty, ok, arith,
}
use open_clause.Base.Dict
use open_clause.Types.ToolCall.{Time}
use open_clause.Evidence.Canonical.{marshal}
use open_clause.Http.{HttpRequest, sent}
use open_clause.Http.Redirects.{Rules, Served, AreRedirected, requests, requests-AreRedirected}
use open_clause.Approvals.Model
use open_clause.Approvals.Webhooks.{
  Url, Ip, v4, v6, zeros_and_one, is_loopback, is_private, is_link_local_unicast,
  is_link_local_multicast, Tools, check_ip, validate_webhook_url, sign_body,
}
use open_clause.Approvals.Deliveries.{
  Dispatcher, signature_of, check_webhook, cloud_event, summarize, webhook_request, deliver_webhook,
  webhook_requests,
}

-- The bytes of an address.
abbrev pub IsAddress : Ip → Type 0
IsAddress (v4 a b c d) = (a < 256) × (b < 256) × (c < 256) × (d < 256)
IsAddress (v6 a b rest) = (a < 256) × (b < 256)

abbrev IsOutside : ℕ → ℕ → ℕ → Type 0
IsOutside lo hi v = (v < lo) ⊎ (hi < v)

-- Outside 127.0.0.0/8, 10.0.0.0/8, 172.16.0.0/12, 192.168.0.0/16, 169.254.0.0/16 and 224.0.0.0/24;
-- not ::1, and outside fc00::/7 and fe80::/10.
abbrev pub IsPublic : Ip → Type 0
IsPublic (v4 a b c d) =
    let address = ((a * 256 + b) * 256 + c) * 256 + d in
    IsOutside 0x7f000000 0x7fffffff address
    × IsOutside 0x0a000000 0x0affffff address
    × IsOutside 0xac100000 0xac1fffff address
    × IsOutside 0xc0a80000 0xc0a8ffff address
    × IsOutside 0xa9fe0000 0xa9feffff address
    × IsOutside 0xe0000000 0xe00000ff address
IsPublic (v6 a b rest) =
    let start = a * 256 + b in
    ((start ≢ 0) ⊎ (rest ≢ zeros_and_one))
    × IsOutside 0xfc00 0xfdff start
    × IsOutside 0xfe80 0xfebf start

abbrev is_internal : Ip → Bool
is_internal ip =
    is_loopback ip || is_private ip || is_link_local_unicast ip || is_link_local_multicast ip

IsPublic-of_is_internal : (ip : Ip) → IsAddress ip → is_internal ip ≡ false → IsPublic ip
unfolding is_loopback is_private is_link_local_unicast is_link_local_multicast
IsPublic-of_is_internal (v4 a b c d) h e =
    (ground arith, ground arith, ground arith, ground arith, ground arith, ground arith)
IsPublic-of_is_internal (v6 a b rest) h e = (
  elim (text_dec rest zeros_and_one) [ yes p ↦ inl (λ z. absurd (ground arith)) | no n ↦ inr n ],
  ground arith,
  ground arith,
)

-- A URL of the scheme https with a host name, which is no address of the network's own.
abbrev pub IsSafe : Tools → Text → Type 0
IsSafe t raw_url =
    (u : Url) × (t.parse_url raw_url ≡ ok u)
    × (u.scheme ≡ text "https")
    × (is_empty u.hostname ≡ false)
    × ((ip : Ip) → t.parse_ip u.hostname ≡ some ip → IsPublic ip)

-- The signature of a body, if the reference names a secret that is not empty.
abbrev pub signed_with : Tools → Option Text → Text → Option Text
signed_with t none body = none
signed_with t (some []) body = none
signed_with t (some (c ∷ s)) body = some (text "sha256=" ++ t.hmac (c ∷ s) body)

signature_header :
    (t : Tools) (d : Dispatcher) (body : Text) (secret : Option Text)
    → Dict.lookup (text "X-OC-Signature-256") (signature_of t d body secret)
      ≡ signed_with t secret body
unfolding Dict.lookup text text_dec sign_body
signature_header t d body none = refl
signature_header t d body (some []) = refl
signature_header t d body (some (c ∷ s)) = refl

webhook_requests-sent :
    (t : Tools) (d : Dispatcher) (rules : Rules) (server : HttpRequest → Served) (now : Time)
    (n : Model.NotificationOutbox) {q : HttpRequest}
    → sent (deliver_webhook t d now n) ≡ some q
    → webhook_requests t d rules server now n ≡ requests rules server q
unfolding webhook_requests
webhook_requests-sent t d rules server now n h = rw (h, webhook_requests) refl

module _ (t : Tools)
    (bytes : (host : Text) (ip : Ip) → t.parse_ip host ≡ some ip → IsAddress ip) where
  check_ip-IsPublic :
      (host : Text)
      → check_ip t (t.parse_ip host) ≡ ok tt
      → (ip : Ip) → t.parse_ip host ≡ some ip
      → IsPublic ip
  unfolding check_ip
  check_ip-IsPublic host h ip e = IsPublic-of_is_internal ip (bytes host ip e) (ground (arith, e))

  validate_webhook_url-IsSafe :
      (raw_url : Text) → validate_webhook_url t raw_url ≡ ok tt → IsSafe t raw_url
  unfolding validate_webhook_url
  validate_webhook_url-IsSafe raw_url h = elim (Result-cases (t.parse_url raw_url)) [
    | inr (e, p) ↦ absurd (ground arith)
    | inl (u, p) ↦ (u, p, ground arith, ground arith, check_ip-IsPublic u.hostname (ground arith))
  ]

  -- If the parser of addresses gives bytes and the validation of webhook URLs is not disabled, the
  -- request that a delivery makes goes to the URL of its notification, whose scheme is https and
  -- whose host, where it is written as an address, is outside the loopback, private and link-local
  -- networks; it is signed with the secret that its reference names, if that is set, and not signed
  -- otherwise. The client sends that request, and after it at most nine others, each of which
  -- follows a redirect that the one before was answered with, to a URL that is not validated.
  pub deliver_webhook-IsSafe :
      (d : Dispatcher) (now : Time) (n : Model.NotificationOutbox) (rules : Rules)
      (server : HttpRequest → Served) {q : HttpRequest}
      → d.skip_webhook_validation ≡ false
      → sent (deliver_webhook t d now n) ≡ some q
      → (q.url ≡ n.notify_url)
        × IsSafe t q.url
        × (Dict.lookup (text "X-OC-Signature-256") q.headers
            ≡ signed_with t (Dict.lookup n.secret_ref d.secrets) q.body)
        × ((rest : List HttpRequest) × (webhook_requests t d rules server now n ≡ q ∷ rest)
            × AreRedirected rules server q rest
            × (length rest ≤ 9))
  unfolding deliver_webhook sent check_webhook webhook_request webhook_requests Dict.lookup text
      text_dec
  deliver_webhook-IsSafe d now n rules server {q} skip h =
      let body = marshal (cloud_event t n d.source (summarize n) now) in
      let (rest, all, each, few) = requests-AreRedirected rules server q in
      elim (Result-cases (check_webhook t d n.notify_url)) [
        | inr (e, p) ↦ absurd (ground arith)
        | inl (_, p) ↦
            let planned : sent (deliver_webhook t d now n) ≡ some (webhook_request t d n body) =
              rw (p, deliver_webhook) refl in
            let e : webhook_request t d n body ≡ q = cc in
            (
              rw (← e) refl,
              rw (← e) (validate_webhook_url-IsSafe n.notify_url (ground arith)),
              rw (← e) (signature_header t d body (Dict.lookup n.secret_ref d.secrets)),
              (rest, webhook_requests-sent t d rules server now n h ∙ all, each, few),
            )
      ]
