-- ===== src/Approvals/Webhooks.antt =====
-- The check of webhook URLs of `pkg/approvals/notifier.go`, and the signature. The parser of URLs and
-- of IP addresses and the HMAC are parameters.
use open_clause.Base.{
  ℕ, ◌/◌, ◌%◌, Bool, true, false, not, ◌&&◌, ◌||◌, Option, none, some, List, [], ◌∷◌, ◌++◌, Text,
  text, ◌==◌, eqb, is_empty, Result, ok, err, ◌>>=◌, ◌>>◌, wrap,
}
use open_clause.Json.{Json}
use open_clause.Types.ToolCall.{Time}
use open_clause.Gateway.Model.{ExecRequest, ExecResponse}

-- A `url.URL`, as far as it is read: its scheme and its host name.
pub record Url : Type 0 where
  pub scheme : Text
  pub hostname : Text

-- A `net.IP` by its bytes. An address of version 4 that is mapped into version 6 is a `v4`.
pub data Ip : Type 0 where
  v4 : ℕ → ℕ → ℕ → ℕ → Ip
  v6 : ℕ → ℕ → List ℕ → Ip

abbrev pub zeros_and_one : List ℕ
zeros_and_one = 0 ∷ 0 ∷ 0 ∷ 0 ∷ 0 ∷ 0 ∷ 0 ∷ 0 ∷ 0 ∷ 0 ∷ 0 ∷ 0 ∷ 0 ∷ 1 ∷ []

-- `IsLoopback`, `IsPrivate`, `IsLinkLocalUnicast` and `IsLinkLocalMulticast` of `net.IP`.
unfoldable pub is_loopback : Ip → Bool
is_loopback (v4 a b c d) = eqb a 127
is_loopback (v6 a b rest) = eqb a 0 && eqb b 0 && rest == zeros_and_one

unfoldable pub is_private : Ip → Bool
is_private (v4 a b c d) = eqb a 10 || (eqb a 172 && eqb (b / 16) 1) || (eqb a 192 && eqb b 168)
is_private (v6 a b rest) = eqb (a / 2) 126

unfoldable pub is_link_local_unicast : Ip → Bool
is_link_local_unicast (v4 a b c d) = eqb a 169 && eqb b 254
is_link_local_unicast (v6 a b rest) = eqb a 254 && eqb (b / 64) 2

unfoldable pub is_link_local_multicast : Ip → Bool
is_link_local_multicast (v4 a b c d) = eqb a 224 && eqb b 0 && eqb c 0
is_link_local_multicast (v6 a b rest) = eqb a 255 && eqb (b % 16) 2

-- What is taken from the libraries: `url.Parse`, `net.ParseIP`, `IP.String`, `%q`, the HMAC, the
-- two formats of a time, and `json.Marshal` on risk factors, which are null if they are nil.
pub record Tools : Type 0 where
  pub parse_url : Text → Result Text Url
  pub parse_ip : Text → Option Ip
  pub show_ip : Ip → Text
  pub quoted : Text → Text
  pub hmac : Text → Text → Text
  pub rfc3339 : Time → Text
  pub rfc3339_nano : Time → Text
  pub risk_factors : List Text → Json
  pub encode : ExecRequest → Result Text Text
  pub decode : Text → Result Text ExecResponse

abbrev pub refuse_if : Bool → Text → Result Text (Unit {0})
refuse_if false e = ok tt
refuse_if true e = err e

module _ (t : Tools) where
  unfoldable pub check_ip : Option Ip → Result Text (Unit {0})
  check_ip none = ok tt
  check_ip (some ip) =
      refuse_if
        (is_loopback ip || is_private ip || is_link_local_unicast ip || is_link_local_multicast ip)
        (text "private/loopback IP not allowed: " ++ t.show_ip ip)

  -- `ValidateWebhookURL`.
  unfoldable pub validate_webhook_url : Text → Result Text (Unit {0})
  unfolding check_ip
  validate_webhook_url raw_url = do
    u ← wrap (text "invalid URL: ") (t.parse_url raw_url)
    refuse_if (not (u.scheme == text "https"))
        (text "only https scheme allowed, got " ++ t.quoted u.scheme)
    refuse_if (is_empty u.hostname) (text "empty hostname")
    check_ip (t.parse_ip u.hostname)

  -- `SignBodyHMACSHA256`.
  unfoldable pub sign_body : Text → Text → Text
  sign_body body secret = text "sha256=" ++ t.hmac secret body
